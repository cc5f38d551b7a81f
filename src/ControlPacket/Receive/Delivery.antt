-- ===== src/ControlPacket/Receive/Delivery.antt =====
-- Packets that are written at one end of a connection come out at the other, however the stream cuts
-- the bytes.
use mqtt.Base.{
  ℕ, ◌<◌, ◌≤◌, ◌≡◌, refl, ◌∙◌, List, [], ◌∷◌, ◌++◌, Result, ok, arith, length, append_assoc, map,
  All,
}
use mqtt.Wire.Fetcher.{cspan-append, consume-append}
use mqtt.Wire.VarlenInt.{max_value}
use mqtt.Wire.Stream.{Source, IsSource}
use mqtt.Wire.Stream.Laws.{get_data_until-Fetched, get_data-Fetched}
use mqtt.Header.{Header, fetcher_predicate}
use mqtt.Header.Laws.{header_bytes, transformer-header_bytes}
use mqtt.Header.Arrival.{fetcher_predicate-header_bytes, fetcher_predicate_whole}
use mqtt.ControlPacket.{
  ControlPacket, connect, connack, publish, puback, pubrec, pubrel, pubcomp, subscribe, suback,
  unsubscribe, unsuback, disconnect, pingreq, pingresp, read_body,
}
use mqtt.ControlPacket.RoundTrip.{
  IsSendable, IsSendableBody, received, body_bytes, packet_header, packet_bytes,
  parse_body-body_bytes,
}
use mqtt.ControlPacket.Receive.{receive_header, receive, receive_run}

-- The header's byte of type and flags is a byte.
packet_header-byte :
    (b : ControlPacket) (s : IsSendable b) → (packet_header b s.sendable_body).type_flags < 256
packet_header-byte (connect p) s = omega arith
packet_header-byte (connack p) s = omega arith
packet_header-byte (publish p) s = omega (arith, s.sendable_body.flags)
packet_header-byte (puback p) s = omega arith
packet_header-byte (pubrec p) s = omega arith
packet_header-byte (pubrel p) s = omega arith
packet_header-byte (pubcomp p) s = omega arith
packet_header-byte (subscribe p) s = omega arith
packet_header-byte (suback p) s = omega arith
packet_header-byte (unsubscribe p) s = omega arith
packet_header-byte (unsuback p) s = omega arith
packet_header-byte (disconnect p) s = omega arith
packet_header-byte pingreq s = omega arith
packet_header-byte pingresp s = omega arith

read_body-append :
    (b : ControlPacket) (s : IsSendableBody b) (extra : List ℕ)
    → read_body (packet_header b s) (body_bytes b s ++ extra) ≡ ok (received b, extra)
unfolding read_body
read_body-append b s extra = ground (
  arith,
  cspan-append (body_bytes b s) extra,
  consume-append (body_bytes b s) extra,
  parse_body-body_bytes b s,
)

-- What a run of packets is written as.
abbrev pub run_bytes : (bs : List ControlPacket) → All IsSendable bs → List ℕ
run_bytes [] ps = []
run_bytes (b ∷ bs) (p, ps) = packet_bytes b p ++ run_bytes bs ps

module _ {ℓ} {S : Type ℓ} (source : Source S) (law : IsSource source) where
  -- A packet is received: what came behind it is in the buffer and the stream still.
  abbrev pub Delivered {κ} :
      {A : Type κ} → Result (A × (List ℕ × S)) → A → List ℕ → S → Type (ℓ ⊔ κ)
  Delivered r a rest s =
      (extra : List ℕ) × (s' : S) × (r ≡ ok (a, (extra, s')))
      × (extra ++ law.pending s' ≡ rest)
      × (law.reads_left s' ≤ law.reads_left s)

  receive_header-Delivered :
      (hdr : Header) (rest : List ℕ) (fuel : ℕ) (buffer : List ℕ) (s : S)
      → hdr.type_flags < 256
      → hdr.remaining_length ≤ max_value
      → law.reads_left s < fuel
      → buffer ++ law.pending s ≡ header_bytes hdr ++ rest
      → Delivered (receive_header source fuel buffer s) hdr rest s
  unfolding receive_header
  receive_header-Delivered hdr rest fuel buffer s ht hl enough e =
      let (extra, s1, e1, e2, le) =
        get_data_until-Fetched source law (header_bytes hdr) rest fetcher_predicate
          (fetcher_predicate-header_bytes hdr hl) (λ b t. fetcher_predicate_whole hdr hl b t rest)
          fuel buffer s enough e in
      (extra, s1, rw (e1, transformer-header_bytes hdr extra ht hl), e2, le)

  -- A packet that is written, `rest` behind it, is received, whatever of the two is in the buffer
  -- and however the stream delivers the others.
  pub receive-Delivered :
      (b : ControlPacket) (p : IsSendable b) (rest : List ℕ) (fuel : ℕ) (buffer : List ℕ) (s : S)
      → law.reads_left s < fuel
      → buffer ++ law.pending s ≡ packet_bytes b p ++ rest
      → Delivered (receive source fuel buffer s) (received b) rest s
  unfolding receive
  receive-Delivered b p rest fuel buffer s enough e =
      let hdr = packet_header b p.sendable_body in
      let body = body_bytes b p.sendable_body in
      let (buffer1, s1, e1, e2, le) =
        receive_header-Delivered hdr (body ++ rest) fuel buffer s (packet_header-byte b p) p.fits
          enough (e ∙ append_assoc (header_bytes hdr) body rest) in
      let (extra, s2, e3, e4, le') =
        get_data-Fetched source law body rest fuel buffer1 s1 (omega arith) e2 in
      (extra, s2, rw (e1, e3, read_body-append b p.sendable_body extra), e4, omega arith)

  -- A run of sendable packets, written one behind the other, is received as those packets in
  -- order (each as the reader fills it), whatever part of the bytes is in the buffer at first
  -- and however the stream cuts the others; the bytes behind the run are left, and fuel for one
  -- round more than the reads is enough.
  pub receive_run-Delivered :
      (bs : List ControlPacket) (ps : All IsSendable bs) (rest : List ℕ) (fuel : ℕ)
      (buffer : List ℕ) (s : S)
      → law.reads_left s < fuel
      → buffer ++ law.pending s ≡ run_bytes bs ps ++ rest
      → Delivered (receive_run source fuel (length bs) buffer s) (map received bs) rest s
  unfolding receive_run
  receive_run-Delivered [] ps rest fuel buffer s enough e = (buffer, s, refl, e, omega arith)
  receive_run-Delivered (b ∷ bs) (p, ps) rest fuel buffer s enough e =
      let (buffer1, s1, e1, e2, le) =
        receive-Delivered b p (run_bytes bs ps ++ rest) fuel buffer s enough
          (e ∙ append_assoc (packet_bytes b p) (run_bytes bs ps) rest) in
      let (extra, s2, e3, e4, le') =
        receive_run-Delivered bs ps rest fuel buffer1 s1 (omega arith) e2 in
      (extra, s2, rw (e1, e3), e4, omega arith)
