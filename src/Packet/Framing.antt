-- ===== src/Packet/Framing.antt =====
-- What the `serialize` functions of the packets share: a header that is made for the body, which
-- counts its bytes, and then the body once more.
use mqtt.Base.{
  ℕ, ◌^◌, ◌*◌, ◌+◌, ◌<◌, ◌≤◌, ◌≡◌, List, ◌++◌, Result, ok, err, ◌>>=◌, arith, length,
  value_exceeds_max,
}
use mqtt.Wire.VarlenInt.{max_value}
use mqtt.Wire.VarlenInt
use mqtt.Header.{Header, make_header, transformer}
use mqtt.Header
use mqtt.Header.Laws.{make_header_determined, header_bytes, serialize-header_bytes}

-- `header hdr(type_value, flags, *this); hdr.serialize(writer); serialize_body(writer);`
unfoldable pub serialize_packet : ℕ → ℕ → ℕ → Result (List ℕ) → Result (List ℕ)
serialize_packet indeterminate type flags serialize_body = do
  body ← serialize_body
  header_bytes ← Header.serialize (make_header indeterminate type flags body)
  ok (header_bytes ++ body)

-- The header of a body that fits a length of 28 bits.
abbrev pub framed_header : ℕ → ℕ → List ℕ → Header
framed_header t f body = record { type_flags = t * 16 + f; remaining_length = length body }

pub serialize_packet-framed :
    (g t f : ℕ) (body : List ℕ)
    → g < 256
    → t < 16
    → f < 16
    → length body ≤ max_value
    → serialize_packet g t f (ok body) ≡ ok (header_bytes (framed_header t f body) ++ body)
unfolding serialize_packet make_header
serialize_packet-framed g t f body hg ht hf hl =
    let e : make_header g t f body ≡ framed_header t f body =
      ground (arith, make_header_determined g t f body hg ht hf) in
    ground (arith, e, serialize-header_bytes (framed_header t f body) hl)

-- A body that is longer is refused, whatever the type.
pub serialize_packet_too_long :
    (g t f : ℕ) (body : List ℕ)
    → max_value < length body
    → length body < 2 ^ 32
    → serialize_packet g t f (ok body) ≡ err value_exceeds_max
unfolding serialize_packet make_header Header.serialize VarlenInt.serialize
serialize_packet_too_long g t f body lo hi = ground arith
