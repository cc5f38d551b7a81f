-- ===== src/Packet/Suback.antt =====
-- SUBACK (include/mqtt5/protocol/subscribe.hpp) and UNSUBACK (unsubscribe.hpp), two texts of one
-- packet.
pub mod RoundTrip
use mqtt.Base.{ℕ, List, ◌++◌, Result, ok, ◌>>=◌}
use mqtt.Wire.Fetcher.{cspan}
use mqtt.Wire.FixedInt.{u16}
use mqtt.Wire.FixedInt
use mqtt.Header.{Header}
use mqtt.Packet.Framing.{serialize_packet}
use mqtt.Packet.Reason.{ReasonProperties}
use mqtt.Packet.Reason

pub record Suback : Type 0 where
  pub packet_identifier : ℕ
  pub properties : ReasonProperties
  pub reason_codes : List ℕ

abbrev pub suback_type : ℕ
suback_type = 9

abbrev pub unsuback_type : ℕ
unsuback_type = 11

unfoldable pub deserialize_fields : List ℕ → Result Suback
deserialize_fields span = do
  (packet_identifier, span') ← FixedInt.deserialize u16 span
  (properties, rest) ← Reason.deserialize span'
  ok (record {
    packet_identifier = packet_identifier;
    properties = properties;
    reason_codes = rest;
  })

unfoldable pub deserialize : Header → List ℕ → Result Suback
deserialize hdr fetched = do
  data_span ← cspan hdr.remaining_length fetched
  deserialize_fields data_span

unfoldable pub serialize_body : Suback → Result (List ℕ)
serialize_body p = do
  property_bytes ← Reason.serialize p.properties
  ok (FixedInt.serialize u16 p.packet_identifier ++ (property_bytes ++ p.reason_codes))

unfoldable pub serialize : ℕ → Suback → Result (List ℕ)
serialize indeterminate p = serialize_packet indeterminate suback_type 0 (serialize_body p)

unfoldable pub serialize_unsuback : ℕ → Suback → Result (List ℕ)
serialize_unsuback indeterminate p =
    serialize_packet indeterminate unsuback_type 0 (serialize_body p)
