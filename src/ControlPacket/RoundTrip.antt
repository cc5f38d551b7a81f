-- ===== src/ControlPacket/RoundTrip.antt =====
-- What a control packet is written as, and what it is read back as.
use mqtt.Base.{
  ℕ, ◌<◌, ◌≤◌, ◌≡◌, refl, List, [], ◌++◌, Result, ok, err, unknown_packet_type, arith, length, ◌⊎◌,
}
use mqtt.Wire.FixedInt.{u8}
use mqtt.Wire.FixedInt
use mqtt.Wire.VarlenInt.{max_value}
use mqtt.Wire.VarlenInt.Encode.{groups}
use mqtt.Header.{Header, get_type}
use mqtt.Header.Laws.{header_bytes}
use mqtt.Packet.Framing.{serialize_packet, framed_header, serialize_packet-framed}
use mqtt.Packet.Connect
use mqtt.Packet.Connect.RoundTrip as ConnectTrip
use mqtt.Packet.Connack
use mqtt.Packet.Connack.RoundTrip as ConnackTrip
use mqtt.Packet.Publish
use mqtt.Packet.Publish.RoundTrip as PublishTrip
use mqtt.Packet.Puback
use mqtt.Packet.Puback.RoundTrip as PubackTrip
use mqtt.Packet.Subscribe
use mqtt.Packet.Subscribe.RoundTrip as SubscribeTrip
use mqtt.Packet.Suback
use mqtt.Packet.Suback.RoundTrip as SubackTrip
use mqtt.Packet.Unsubscribe
use mqtt.Packet.Unsubscribe.RoundTrip as UnsubscribeTrip
use mqtt.Packet.Disconnect
use mqtt.Packet.Disconnect.RoundTrip as DisconnectTrip
use mqtt.ControlPacket.{
  ControlPacket, connect, connack, publish, puback, pubrec, pubrel, pubcomp, subscribe, suback,
  unsubscribe, unsuback, disconnect, pingreq, pingresp, packet_type, serialize, parse_body,
}

-- A packet whose parts the wire can carry.
abbrev pub IsSendableBody : ControlPacket → Type 0
IsSendableBody (connect p) = ConnectTrip.IsSendable p
IsSendableBody (connack p) = ConnackTrip.IsSendable p
IsSendableBody (publish p) = PublishTrip.IsSendablePublish p
IsSendableBody (puback p) = PubackTrip.IsSendableAck p
IsSendableBody (pubrec p) = PubackTrip.IsSendableAck p
IsSendableBody (pubrel p) = PubackTrip.IsSendableAck p
IsSendableBody (pubcomp p) = PubackTrip.IsSendableAck p
IsSendableBody (subscribe p) = SubscribeTrip.IsSendableSubscribe p
IsSendableBody (suback p) = SubackTrip.IsSendableSuback p
IsSendableBody (unsubscribe p) = UnsubscribeTrip.IsSendableUnsubscribe p
IsSendableBody (unsuback p) = SubackTrip.IsSendableSuback p
IsSendableBody (disconnect p) = DisconnectTrip.IsSendableDisconnect p
IsSendableBody pingreq = Unit
IsSendableBody pingresp = Unit

-- The packet that comes out at the other end.
abbrev pub received : ControlPacket → ControlPacket
received (connect p) = connect (ConnectTrip.received p)
received (connack p) = connack (ConnackTrip.received p)
received (publish p) = publish (PublishTrip.received_publish p)
received (puback p) = puback (PubackTrip.received_ack p)
received (pubrec p) = pubrec (PubackTrip.received_ack p)
received (pubrel p) = pubrel (PubackTrip.received_ack p)
received (pubcomp p) = pubcomp (PubackTrip.received_ack p)
received (subscribe p) = subscribe p
received (suback p) = suback p
received (unsubscribe p) = unsubscribe p
received (unsuback p) = unsuback p
received (disconnect p) = disconnect p
received pingreq = pingreq
received pingresp = pingresp

abbrev pub body_bytes : (b : ControlPacket) → IsSendableBody b → List ℕ
body_bytes (connect p) s = ConnectTrip.body_bytes p
body_bytes (connack p) s = ConnackTrip.body_bytes p
body_bytes (publish p) s = PublishTrip.body_bytes p s
body_bytes (puback p) s = PubackTrip.body_bytes p
body_bytes (pubrec p) s = PubackTrip.body_bytes p
body_bytes (pubrel p) s = PubackTrip.body_bytes p
body_bytes (pubcomp p) s = PubackTrip.body_bytes p
body_bytes (subscribe p) s = SubscribeTrip.body_bytes p
body_bytes (suback p) s = SubackTrip.body_bytes p
body_bytes (unsubscribe p) s = UnsubscribeTrip.body_bytes p
body_bytes (unsuback p) s = SubackTrip.body_bytes p
body_bytes (disconnect p) s = DisconnectTrip.body_bytes p
body_bytes pingreq s = []
body_bytes pingresp s = []

-- The flags of the fixed header.
abbrev pub packet_flags : ControlPacket → ℕ
packet_flags (publish p) = p.header_flags
packet_flags (pubrel p) = 2
packet_flags (subscribe p) = 2
packet_flags (unsubscribe p) = 2
packet_flags b = 0

abbrev pub packet_header : (b : ControlPacket) → IsSendableBody b → Header
packet_header b s = framed_header (packet_type b) (packet_flags b) (body_bytes b s)

-- Its body fits a length of 28 bits too.
pub record IsSendable (b : ControlPacket) : Type 0 where
  pub sendable_body : IsSendableBody b
  pub fits : length (body_bytes b sendable_body) ≤ max_value

abbrev pub packet_bytes : (b : ControlPacket) → IsSendable b → List ℕ
packet_bytes b s = header_bytes (packet_header b s.sendable_body) ++ body_bytes b s.sendable_body

-- A body that is written behind the header that its `serialize` makes.
framed :
    (g t f : ℕ) (written : Result (List ℕ)) (body : List ℕ)
    → g < 256
    → t < 16
    → f < 16
    → length body ≤ max_value
    → written ≡ ok body
    → serialize_packet g t f written ≡ ok (header_bytes (framed_header t f body) ++ body)
framed g t f written body hg ht hf hl e = rw e (serialize_packet-framed g t f body hg ht hf hl)

-- Each of the fourteen packets, if sendable and of a body that fits 28 bits of length, is
-- written as its header and its body, whatever byte the header's memory held.
pub serialize-packet_bytes :
    (g : ℕ) (b : ControlPacket) (s : IsSendable b) → g < 256 → serialize g b ≡ ok (packet_bytes b s)
unfolding serialize Connect.serialize Connack.serialize Publish.serialize Puback.serialize
    Subscribe.serialize Suback.serialize Suback.serialize_unsuback Unsubscribe.serialize
    Disconnect.serialize header_bytes groups FixedInt.serialize
serialize-packet_bytes g (connect p) s hg =
    framed g (packet_type (connect p)) 0 _ _ hg (omega arith) (omega arith) s.fits
      (ConnectTrip.serialize_body-body_bytes p s.sendable_body)
serialize-packet_bytes g (connack p) s hg =
    framed g (packet_type (connack p)) 0 _ _ hg (omega arith) (omega arith) s.fits
      (ConnackTrip.serialize_body-body_bytes p s.sendable_body)
serialize-packet_bytes g (publish p) s hg =
    framed g (packet_type (publish p)) p.header_flags _ _ hg (omega arith) s.sendable_body.flags
      s.fits (PublishTrip.serialize_body-body_bytes p s.sendable_body)
serialize-packet_bytes g (puback p) s hg =
    framed g (packet_type (puback p)) 0 _ _ hg (omega arith) (omega arith) s.fits
      (PubackTrip.serialize_body-body_bytes p s.sendable_body)
serialize-packet_bytes g (pubrec p) s hg =
    framed g (packet_type (pubrec p)) 0 _ _ hg (omega arith) (omega arith) s.fits
      (PubackTrip.serialize_body-body_bytes p s.sendable_body)
serialize-packet_bytes g (pubrel p) s hg =
    framed g (packet_type (pubrel p)) 2 _ _ hg (omega arith) (omega arith) s.fits
      (PubackTrip.serialize_body-body_bytes p s.sendable_body)
serialize-packet_bytes g (pubcomp p) s hg =
    framed g (packet_type (pubcomp p)) 0 _ _ hg (omega arith) (omega arith) s.fits
      (PubackTrip.serialize_body-body_bytes p s.sendable_body)
serialize-packet_bytes g (subscribe p) s hg =
    framed g (packet_type (subscribe p)) 2 _ _ hg (omega arith) (omega arith) s.fits
      (SubscribeTrip.serialize_body-body_bytes p s.sendable_body)
serialize-packet_bytes g (suback p) s hg =
    framed g (packet_type (suback p)) 0 _ _ hg (omega arith) (omega arith) s.fits
      (SubackTrip.serialize_body-body_bytes p s.sendable_body)
serialize-packet_bytes g (unsubscribe p) s hg =
    framed g (packet_type (unsubscribe p)) 2 _ _ hg (omega arith) (omega arith) s.fits
      (UnsubscribeTrip.serialize_body-body_bytes p s.sendable_body)
serialize-packet_bytes g (unsuback p) s hg =
    framed g (packet_type (unsuback p)) 0 _ _ hg (omega arith) (omega arith) s.fits
      (SubackTrip.serialize_body-body_bytes p s.sendable_body)
serialize-packet_bytes g (disconnect p) s hg =
    framed g (packet_type (disconnect p)) 0 _ _ hg (omega arith) (omega arith) s.fits
      (DisconnectTrip.serialize_body-body_bytes p s.sendable_body)
serialize-packet_bytes g pingreq s hg = refl
serialize-packet_bytes g pingresp s hg = refl

-- The body of each of the fourteen packets, if sendable, is parsed under its header as the
-- packet that the reader fills.
pub parse_body-body_bytes :
    (b : ControlPacket) (s : IsSendableBody b)
    → parse_body (packet_header b s) (body_bytes b s) ≡ ok (received b)
unfolding parse_body get_type
parse_body-body_bytes (connect p) s = rw (ConnectTrip.deserialize-body_bytes p s)
parse_body-body_bytes (connack p) s = rw (ConnackTrip.deserialize-body_bytes p s)
parse_body-body_bytes (publish p) s =
    ground (arith, s.flags, PublishTrip.deserialize-body_bytes p s)
parse_body-body_bytes (puback p) s = rw (PubackTrip.deserialize-body_bytes p s Puback.puback)
parse_body-body_bytes (pubrec p) s = rw (PubackTrip.deserialize-body_bytes p s Puback.pubrec)
parse_body-body_bytes (pubrel p) s = rw (PubackTrip.deserialize-body_bytes p s Puback.pubrel)
parse_body-body_bytes (pubcomp p) s = rw (PubackTrip.deserialize-body_bytes p s Puback.pubcomp)
parse_body-body_bytes (subscribe p) s = rw (SubscribeTrip.deserialize-body_bytes p s)
parse_body-body_bytes (suback p) s = rw (SubackTrip.deserialize-body_bytes p s Suback.suback_type)
parse_body-body_bytes (unsubscribe p) s = rw (UnsubscribeTrip.deserialize-body_bytes p s)
parse_body-body_bytes (unsuback p) s =
    rw (SubackTrip.deserialize-body_bytes p s Suback.unsuback_type)
parse_body-body_bytes (disconnect p) s = rw (DisconnectTrip.deserialize-body_bytes p s)
parse_body-body_bytes pingreq s = refl
parse_body-body_bytes pingresp s = refl

-- A type that no packet has is refused, and nothing of it is parsed.
pub parse_body_unknown :
    (hdr : Header) (span : List ℕ)
    → (get_type hdr.type_flags ≡ 0) ⊎ (14 < get_type hdr.type_flags)
    → parse_body hdr span ≡ err unknown_packet_type
unfolding parse_body
parse_body_unknown hdr span h = ground arith
