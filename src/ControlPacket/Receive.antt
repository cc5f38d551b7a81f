-- ===== src/ControlPacket/Receive.antt =====
-- include/mqtt5/protocol/control_packet.hpp and header.hpp: the in-place deserializers, which read a
-- packet from a stream, and include/mqtt5/connection.hpp: the reader and the writer of packets.
pub mod Delivery
use mqtt.Base.{ℕ, zero, suc, List, [], ◌∷◌, Option, none, some, Result, ok, ◌>>=◌}
use mqtt.Wire.Stream.{Source, get_data_until, get_data}
use mqtt.Header.{Header, fetcher_predicate, transformer}
use mqtt.ControlPacket.{ControlPacket, serialize, read_body}

module _ {ℓ} {S : Type ℓ} (source : Source S) where
  -- `header::inplace_deserializer`. Here and below the pair holds what the buffer and the stream are
  -- left with.
  unfoldable pub receive_header : ℕ → List ℕ → S → Result (Header × (List ℕ × S))
  receive_header fuel buffer s = do
    (buffer1, s1) ← get_data_until source fuel fetcher_predicate buffer s
    (hdr, buffer2) ← transformer buffer1
    ok (hdr, (buffer2, s1))

  -- `control_packet::inplace_deserializer`, which `connection::control_packet_reader` starts.
  unfoldable pub receive : ℕ → List ℕ → S → Result (ControlPacket × (List ℕ × S))
  unfolding receive_header
  receive fuel buffer s = do
    (hdr, (buffer1, s1)) ← receive_header fuel buffer s
    (buffer2, s2) ← get_data source fuel hdr.remaining_length buffer1 s1
    (packet, buffer3) ← read_body hdr buffer2
    ok (packet, (buffer3, s2))

  -- A run of reads on one connection, each on what the one before it left.
  unfoldable pub receive_run : ℕ → ℕ → List ℕ → S → Result (List ControlPacket × (List ℕ × S))
  receive_run fuel zero buffer s = ok ([], (buffer, s))
  receive_run fuel (suc n) buffer s = do
    (packet, (buffer1, s1)) ← receive fuel buffer s
    (packets, left) ← receive_run fuel n buffer1 s1
    ok (packet ∷ packets, left)
