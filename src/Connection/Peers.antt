-- ===== src/Connection/Peers.antt =====
-- Two ends of a connection: what one writes the other reads.
use mqtt.Base.{
  ℕ, ◌<◌, ◌≡◌, refl, sym, ◌∙◌, List, [], ◌∷◌, ◌++◌, some, Result, ok, arith, length, append_assoc,
  append-nil, append_cancel_left, map, All,
}
use mqtt.Wire.Stream.{IsSource}
use mqtt.ControlPacket.{ControlPacket}
use mqtt.ControlPacket.RoundTrip.{IsSendable, received, packet_bytes, serialize-packet_bytes}
use mqtt.ControlPacket.Receive.Delivery.{run_bytes, receive-Delivered}
use mqtt.Connection.{
  AsyncStream, Connection, control_packet_reader, control_packet_writer, write_run, read_run,
}

-- What Asio promises of the writes to an open stream: all bytes are sent, in order.
pub record IsSink {ℓ} {S : Type ℓ} (async : AsyncStream S) : Type ℓ where
  pub sent : S → List ℕ
  pub writes :
      (bs : List ℕ) (s : S) → (s' : S) × (async.write_all bs s ≡ some s') × (sent s' ≡ sent s ++ bs)

module _ {ℓ} {S : Type ℓ} (async : AsyncStream S) (sink : IsSink async) where
  -- A run is written.
  abbrev pub Written : Result (Connection S) → S → List ℕ → Type ℓ
  Written r s bytes =
      (c' : Connection S) × (r ≡ ok c') × (sink.sent c'.stream ≡ sink.sent s ++ bytes)

  write_run-Written :
      (g : ℕ) (bs : List ControlPacket) (ps : All IsSendable bs) (c : Connection S)
      → g < 256
      → Written (write_run async g bs c) c.stream (run_bytes bs ps)
  unfolding write_run control_packet_writer
  write_run-Written g [] ps c hg = (c, refl, sym (append-nil (sink.sent c.stream)))
  write_run-Written g (b ∷ bs) (p, ps) c hg =
      let (s1, e1, e2) = sink.writes (packet_bytes b p) c.stream in
      let (c2, e3, e4) = write_run-Written g bs ps (record c { stream = s1 }) hg in
      (
        c2,
        rw (serialize-packet_bytes g b p hg, e1) e3,
        rw (e4, e2) (append_assoc (sink.sent c.stream) (packet_bytes b p) (run_bytes bs ps)),
      )

module _ {ℓ} {T : Type ℓ} (async : AsyncStream T) (law : IsSource async.source) where
  -- Packets are read; `rest` is in the buffer and the stream still.
  abbrev pub Read :
      Result (List ControlPacket × Connection T) → List ControlPacket → List ℕ → Type ℓ
  Read r packets rest =
      (c' : Connection T) × (r ≡ ok (packets, c'))
      × (c'.read_buffer ++ law.pending c'.stream ≡ rest)

  read_run-Read :
      (bs : List ControlPacket) (ps : All IsSendable bs) (rest : List ℕ) (fuel : ℕ)
      (c : Connection T)
      → law.reads_left c.stream < fuel
      → c.read_buffer ++ law.pending c.stream ≡ run_bytes bs ps ++ rest
      → Read (read_run async fuel (length bs) c) (map received bs) rest
  unfolding read_run control_packet_reader
  read_run-Read [] ps rest fuel c enough e = (c, refl, e)
  read_run-Read (b ∷ bs) (p, ps) rest fuel c enough e =
      let (extra, s1, e1, e2, le) =
        receive-Delivered async.source law b p (run_bytes bs ps ++ rest) fuel c.read_buffer c.stream
          enough (e ∙ append_assoc (packet_bytes b p) (run_bytes bs ps) rest) in
      let c1 : Connection T = record { stream = s1; read_buffer = extra } in
      let (c2, e3, e4) = read_run-Read bs ps rest fuel c1 (omega arith) e2 in
      (c2, rw (e1, e3) refl, e4)

module _ {ℓ κ} {S : Type ℓ} {T : Type κ} (near : AsyncStream S) (sink : IsSink near)
    (far : AsyncStream T) (law : IsSource far.source) where
  -- Sendable packets that one end of a connection writes one after another are written as their
  -- bytes, and the other end, to which these bytes and no more come, reads them in order (each
  -- as the reader fills it), whatever part of them is in its buffer at first and however the
  -- stream cuts the others; fuel for one round more than the reads is enough. The streams keep
  -- what Asio's documentation says of them.
  pub peers_agree :
      (g : ℕ) (bs : List ControlPacket) (ps : All IsSendable bs) (fuel : ℕ) (writer : Connection S)
      (reader : Connection T)
      → g < 256
      → law.reads_left reader.stream < fuel
      → ((w : Connection S)
          → write_run near g bs writer ≡ ok w
          → sink.sent w.stream
            ≡ sink.sent writer.stream ++ (reader.read_buffer ++ law.pending reader.stream))
      → Written near sink (write_run near g bs writer) writer.stream (run_bytes bs ps)
        × Read far law (read_run far fuel (length bs) reader) (map received bs) []
  peers_agree g bs ps fuel writer reader hg enough arrives =
      let (w, e1, e2) = write_run-Written near sink g bs ps writer hg in
      let carried =
        append_cancel_left (sink.sent writer.stream)
          (reader.read_buffer ++ law.pending reader.stream) (run_bytes bs ps)
          (sym (arrives w e1) ∙ e2) in
      (
        (w, e1, e2),
        read_run-Read far law bs ps [] fuel reader enough
            (carried ∙ sym (append-nil (run_bytes bs ps))),
      )
