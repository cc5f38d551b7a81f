-- ===== src/ControlPacket.antt =====
-- include/mqtt5/protocol/control_packet.hpp and ping.hpp: the variant of the fourteen packets, how
-- it is written, and how it is read from the span of its body.
pub mod RoundTrip
pub mod Receive
pub mod Ends
use mqtt.Base.{
  ℕ, ◌*◌, ◌%◌, ◌^◌, List, [], ◌∷◌, Bool, Option, none, some, Result, ok, err, unknown_packet_type,
  ◌==◌, if◌then◌else◌, ◌>>=◌,
}
use mqtt.Wire.Fetcher.{Reader, cspan, consume}
use mqtt.Header.{Header, get_type, transformer}
use mqtt.Packet.Connect
use mqtt.Packet.Connack
use mqtt.Packet.Publish
use mqtt.Packet.Puback
use mqtt.Packet.Puback.{Ack}
use mqtt.Packet.Subscribe
use mqtt.Packet.Suback
use mqtt.Packet.Suback.{suback_type, unsuback_type}
use mqtt.Packet.Unsubscribe
use mqtt.Packet.Disconnect

pub data ControlPacket : Type 0 where
  connect : Connect.Connect → ControlPacket
  connack : Connack.Connack → ControlPacket
  publish : Publish.Publish → ControlPacket
  puback : Ack → ControlPacket
  pubrec : Ack → ControlPacket
  pubrel : Ack → ControlPacket
  pubcomp : Ack → ControlPacket
  subscribe : Subscribe.Subscribe → ControlPacket
  suback : Suback.Suback → ControlPacket
  unsubscribe : Unsubscribe.Unsubscribe → ControlPacket
  unsuback : Suback.Suback → ControlPacket
  disconnect : Disconnect.Disconnect → ControlPacket
  pingreq : ControlPacket
  pingresp : ControlPacket

abbrev pub pingreq_type : ℕ
pingreq_type = 12

abbrev pub pingresp_type : ℕ
pingresp_type = 13

abbrev pub packet_type : ControlPacket → ℕ
packet_type (connect p) = Connect.type_value
packet_type (connack p) = Connack.type_value
packet_type (publish p) = Publish.type_value
packet_type (puback p) = Puback.type_value Puback.puback
packet_type (pubrec p) = Puback.type_value Puback.pubrec
packet_type (pubrel p) = Puback.type_value Puback.pubrel
packet_type (pubcomp p) = Puback.type_value Puback.pubcomp
packet_type (subscribe p) = Subscribe.type_value
packet_type (suback p) = suback_type
packet_type (unsubscribe p) = Unsubscribe.type_value
packet_type (unsuback p) = unsuback_type
packet_type (disconnect p) = Disconnect.type_value
packet_type pingreq = pingreq_type
packet_type pingresp = pingresp_type

-- A ping writes its two bytes itself.
unfoldable pub serialize_ping : ℕ → Result (List ℕ)
serialize_ping type = ok (type * 2 ^ 4 % 2 ^ 8 ∷ 0 ∷ [])

-- The visitor of `serialize`.
unfoldable pub serialize : ℕ → ControlPacket → Result (List ℕ)
unfolding serialize_ping
serialize indeterminate (connect p) = Connect.serialize indeterminate p
serialize indeterminate (connack p) = Connack.serialize indeterminate p
serialize indeterminate (publish p) = Publish.serialize indeterminate p
serialize indeterminate (puback p) = Puback.serialize Puback.puback indeterminate p
serialize indeterminate (pubrec p) = Puback.serialize Puback.pubrec indeterminate p
serialize indeterminate (pubrel p) = Puback.serialize Puback.pubrel indeterminate p
serialize indeterminate (pubcomp p) = Puback.serialize Puback.pubcomp indeterminate p
serialize indeterminate (subscribe p) = Subscribe.serialize indeterminate p
serialize indeterminate (suback p) = Suback.serialize indeterminate p
serialize indeterminate (unsubscribe p) = Unsubscribe.serialize indeterminate p
serialize indeterminate (unsuback p) = Suback.serialize_unsuback indeterminate p
serialize indeterminate (disconnect p) = Disconnect.serialize indeterminate p
serialize indeterminate pingreq = serialize_ping pingreq_type
serialize indeterminate pingresp = serialize_ping pingresp_type

-- The chain of tests of `get_parse_body`, on the span of the body. CONNECT and CONNACK do not look
-- at the header.
unfoldable pub parse_body : Header → List ℕ → Result ControlPacket
unfolding get_type
parse_body hdr span =
    let type = get_type hdr.type_flags in
    if type == Connect.type_value
    then (do (p, rest) ← Connect.deserialize span; ok (connect p))
    else if type == Connack.type_value
    then (do (p, rest) ← Connack.deserialize span; ok (connack p))
    else if type == Publish.type_value
    then (do p ← Publish.deserialize hdr span; ok (publish p))
    else if type == Puback.type_value Puback.puback
    then (do p ← Puback.deserialize hdr span; ok (puback p))
    else if type == Puback.type_value Puback.pubrec
    then (do p ← Puback.deserialize hdr span; ok (pubrec p))
    else if type == Puback.type_value Puback.pubrel
    then (do p ← Puback.deserialize hdr span; ok (pubrel p))
    else if type == Puback.type_value Puback.pubcomp
    then (do p ← Puback.deserialize hdr span; ok (pubcomp p))
    else if type == Subscribe.type_value
    then (do p ← Subscribe.deserialize hdr span; ok (subscribe p))
    else if type == suback_type
    then (do p ← Suback.deserialize hdr span; ok (suback p))
    else if type == Unsubscribe.type_value
    then (do p ← Unsubscribe.deserialize hdr span; ok (unsubscribe p))
    else if type == unsuback_type
    then (do p ← Suback.deserialize hdr span; ok (unsuback p))
    else if type == Disconnect.type_value
    then (do p ← Disconnect.deserialize hdr span; ok (disconnect p))
    else if type == pingreq_type
    then ok pingreq
    else if type == pingresp_type
    then ok pingresp
    else err unknown_packet_type

-- The rest of `get_parse_body`, once the bytes of the body are in the buffer.
unfoldable pub read_body : Header → Reader ControlPacket
read_body hdr fetched = do
  packet_data ← cspan hdr.remaining_length fetched
  body ← parse_body hdr packet_data
  ok (body, consume hdr.remaining_length fetched)
