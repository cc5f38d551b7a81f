-- ===== src/Packet/Puback.antt =====
-- include/mqtt5/protocol/publish.hpp: `detail::puback_base`, of which PUBACK, PUBREC, PUBREL and
-- PUBCOMP are instances.
pub mod RoundTrip
use mqtt.Base.{
  ℕ, ◌-◌, List, [], ◌∷◌, ◌++◌, Bool, true, false, not, ◌||◌, Result, ok, ◌==◌, ltb, if◌then◌else◌,
  is_empty, ◌>>=◌,
}
use mqtt.Wire.Fetcher.{Reader}
use mqtt.Wire.FixedInt.{u8, u16}
use mqtt.Wire.FixedInt
use mqtt.Header.{Header}
use mqtt.Packet.Framing.{serialize_packet}
use mqtt.Packet.Reason.{ReasonProperties}
use mqtt.Packet.Reason

-- A reason code is the number of its enumerator, and `success` is 0.
pub record Ack : Type 0 where
  pub packet_identifier : ℕ
  pub reason_code : ℕ
  pub properties : ReasonProperties

-- The template arguments of the four packets.
pub data AckKind : Type 0 where
  puback pubrec pubrel pubcomp : AckKind

abbrev pub type_value : AckKind → ℕ
type_value puback = 4
type_value pubrec = 5
type_value pubrel = 6
type_value pubcomp = 7

abbrev pub flags : AckKind → ℕ
flags puback = 0
flags pubrec = 0
flags pubrel = 2
flags pubcomp = 0

unfoldable pub read_reason : ℕ → Reader ℕ
read_reason remaining_length span =
    if ltb 2 remaining_length then FixedInt.deserialize u8 span else ok (0, span)

unfoldable pub read_properties : ℕ → Reader ReasonProperties
read_properties remaining_length span =
    if ltb 3 remaining_length then Reason.deserialize span else ok (Reason.dflt, span)

unfoldable pub deserialize : Header → List ℕ → Result Ack
deserialize hdr span = do
  (packet_identifier, span') ← FixedInt.deserialize u16 span
  (reason_code, span'') ← read_reason hdr.remaining_length span'
  (properties, rest) ← read_properties hdr.remaining_length span''
  ok (record {
    packet_identifier = packet_identifier;
    reason_code = reason_code;
    properties = properties;
  })

-- The unknown properties alone do not make the properties be written.
unfoldable pub writes_reason : Ack → Bool
writes_reason p =
    not (p.reason_code == 0)
    || (not (is_empty p.properties.base.user_property) || not (is_empty p.properties.reason_string))

unfoldable pub serialize_reason : Ack → Result (List ℕ)
serialize_reason p = do
  property_bytes ← Reason.serialize p.properties
  ok (FixedInt.serialize u8 p.reason_code ++ property_bytes)

unfoldable pub serialize_body : Ack → Result (List ℕ)
serialize_body p = do
  reason_bytes ← (if writes_reason p then serialize_reason p else ok [])
  ok (FixedInt.serialize u16 p.packet_identifier ++ reason_bytes)

unfoldable pub serialize : AckKind → ℕ → Ack → Result (List ℕ)
serialize kind indeterminate p =
    serialize_packet indeterminate (type_value kind) (flags kind) (serialize_body p)
