-- ===== src/Packet/Connack.antt =====
-- include/mqtt5/protocol/connect.hpp: CONNACK.
pub mod Properties
pub mod RoundTrip
use mqtt.Base.{ℕ, List, ◌++◌, Result, ok, ◌>>=◌}
use mqtt.Wire.Fetcher.{Reader}
use mqtt.Wire.FixedInt.{u8}
use mqtt.Wire.FixedInt
use mqtt.Packet.Framing.{serialize_packet}
use Properties.{ConnackProperties}

abbrev pub type_value : ℕ
type_value = 2

pub record Connack : Type 0 where
  pub flags : ℕ
  pub reason_code : ℕ
  pub properties : ConnackProperties

-- It is read with no header, from the span of its body.
unfoldable pub deserialize : Reader Connack
deserialize span = do
  (flags, span1) ← FixedInt.deserialize u8 span
  (reason_code, span2) ← FixedInt.deserialize u8 span1
  (properties, rest) ← Properties.deserialize span2
  ok (record { flags = flags; reason_code = reason_code; properties = properties }, rest)

unfoldable pub serialize_body : Connack → Result (List ℕ)
serialize_body p = do
  property_bytes ← Properties.serialize p.properties
  ok (FixedInt.serialize u8 p.flags ++ (FixedInt.serialize u8 p.reason_code ++ property_bytes))

unfoldable pub serialize : ℕ → Connack → Result (List ℕ)
serialize indeterminate p = serialize_packet indeterminate type_value 0 (serialize_body p)
