-- ===== src/Connection.antt =====
-- include/mqtt5/connection.hpp: a connection, its reader of packets and its writer; and the tests of a
-- packet's type of include/mqtt5/protocol/control_packet.hpp.
pub mod Peers
use mqtt.Base.{
  ℕ, zero, suc, List, [], ◌∷◌, ◌++◌, Bool, Option, none, some, Result, ok, err, write_failed, ◌>>=◌,
  ◌==◌, if◌then◌else◌, option_case,
}
use mqtt.Wire.Stream.{Source}
use mqtt.ControlPacket.{ControlPacket, packet_type, serialize}
use mqtt.ControlPacket.Receive.{receive}

-- The stream of a connection is code of Asio, known by its `async_read_some` and by `write_all`, which
-- may fail.
pub record AsyncStream {ℓ} (S : Type ℓ) : Type ℓ where
  pub source : Source S
  pub write_all : List ℕ → S → Option S

pub record Connection {ℓ} (S : Type ℓ) : Type ℓ where
  pub stream : S
  pub read_buffer : List ℕ

-- A body type is the type of its packets, since each alternative of the variant has one of its own.
abbrev pub is_type : ℕ → ControlPacket → Bool
is_type body_type packet = packet_type packet == body_type

unfoldable pub body_as : ℕ → ControlPacket → Option ControlPacket
body_as body_type packet = if is_type body_type packet then some packet else none

module _ {ℓ} {S : Type ℓ} (async : AsyncStream S) where
  -- Fuel is for the reads of the stream.
  unfoldable pub control_packet_reader : ℕ → Connection S → Result (ControlPacket × Connection S)
  control_packet_reader fuel c = do
    (packet, (buffer, s)) ← receive async.source fuel c.read_buffer c.stream
    ok (packet, record { stream = s; read_buffer = buffer })

  unfoldable pub packet_reader : ℕ → ℕ → Connection S → Result (Option ControlPacket × Connection S)
  unfolding control_packet_reader body_as
  packet_reader body_type fuel c = do
    (packet, c') ← control_packet_reader fuel c
    ok (body_as body_type packet, c')

  -- `indeterminate` is what the memory of the header holds before it is set.
  unfoldable pub control_packet_writer : ℕ → ControlPacket → Connection S → Result (Connection S)
  control_packet_writer indeterminate packet c = do
    buffer ← serialize indeterminate packet
    option_case (async.write_all buffer c.stream) (err write_failed)
        (λ s. ok (record c { stream = s }))

  -- Packets written one after another, and packets read one after another.
  unfoldable pub write_run : ℕ → List ControlPacket → Connection S → Result (Connection S)
  unfolding control_packet_writer
  write_run indeterminate [] c = ok c
  write_run indeterminate (packet ∷ packets) c =
      control_packet_writer indeterminate packet c >>= write_run indeterminate packets

  unfoldable pub read_run : ℕ → ℕ → Connection S → Result (List ControlPacket × Connection S)
  unfolding control_packet_reader
  read_run fuel zero c = ok ([], c)
  read_run fuel (suc n) c = do
    (packet, c1) ← control_packet_reader fuel c
    (packets, c2) ← read_run fuel n c1
    ok (packet ∷ packets, c2)
