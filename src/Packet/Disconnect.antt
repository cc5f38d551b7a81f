-- ===== src/Packet/Disconnect.antt =====
-- include/mqtt5/protocol/disconnect.hpp: DISCONNECT.
pub mod RoundTrip
use mqtt.Base.{
  ℕ, List, [], ◌∷◌, ◌++◌, Bool, ◌&&◌, Result, ok, ◌>>=◌, ◌==◌, ltb, if◌then◌else◌, is_empty, length,
  bytes_eq,
}
use mqtt.Wire.Fetcher.{Reader, cspan}
use mqtt.Wire.FixedInt.{u8, u32}
use mqtt.Wire.FixedInt
use mqtt.Property.{Property, as_string, as_integral}
use mqtt.Properties.{BaseProperties, no_base, handle_property}
use mqtt.Properties.Fields.{Field, string_field, number_field}
use mqtt.Properties.Fields.Struct.{serialize_struct, deserialize_struct}
use mqtt.Header.{Header}
use mqtt.Packet.Framing.{serialize_packet}

pub record DisconnectProperties : Type 0 where
  pub base : BaseProperties
  pub session_expiry_interval : ℕ
  pub reason_string : List ℕ
  pub server_reference : List ℕ

abbrev pub dflt : DisconnectProperties
dflt = record {
  base = no_base;
  session_expiry_interval = 0;
  reason_string = [];
  server_reference = [];
}

unfoldable pub read_property : DisconnectProperties → Property → Result DisconnectProperties
read_property retval p =
    if p.identifier == 17
    then (do v ← as_integral u32 p.value; ok (record retval { session_expiry_interval = v }))
    else if p.identifier == 31
    then (do v ← as_string p.value; ok (record retval { reason_string = v }))
    else if p.identifier == 28
    then (do v ← as_string p.value; ok (record retval { server_reference = v }))
    else (do base ← handle_property p retval.base; ok (record retval { base = base }))

unfoldable pub deserialize_properties : Reader DisconnectProperties
deserialize_properties = deserialize_struct read_property dflt

abbrev pub fields : DisconnectProperties → List Field
fields p =
    number_field 0 17 p.session_expiry_interval
    ∷ string_field 31 p.reason_string
    ∷ string_field 28 p.server_reference
    ∷ []

unfoldable pub serialize_properties : DisconnectProperties → Result (List ℕ)
serialize_properties p = serialize_struct (fields p) p.base

-- `properties == properties_t{}`
unfoldable pub is_default : DisconnectProperties → Bool
is_default p =
    bytes_eq p.reason_string []
    && (bytes_eq p.server_reference []
        && (p.session_expiry_interval == 0
            && (is_empty p.base.user_property && is_empty p.base.unknown_properties)))

-- A reason is the number of its enumerator, and `normal` is 0.
pub record Disconnect : Type 0 where
  pub reason : ℕ
  pub properties : DisconnectProperties

abbrev pub type_value : ℕ
type_value = 14

unfoldable pub read_properties : Reader DisconnectProperties
read_properties span = if ltb 1 (length span) then deserialize_properties span else ok (dflt, span)

unfoldable pub deserialize_fields : List ℕ → Result Disconnect
deserialize_fields [] = ok (record { reason = 0; properties = dflt })
deserialize_fields (b ∷ bs) = do
  (reason, span) ← FixedInt.deserialize u8 (b ∷ bs)
  (properties, rest) ← read_properties span
  ok (record { reason = reason; properties = properties })

unfoldable pub deserialize : Header → List ℕ → Result Disconnect
deserialize hdr fetched = do
  data_span ← cspan hdr.remaining_length fetched
  deserialize_fields data_span

unfoldable pub serialize_body : Disconnect → Result (List ℕ)
serialize_body p = if p.reason == 0 && is_default p.properties then ok [] else (do
  property_bytes ← serialize_properties p.properties
  ok (FixedInt.serialize u8 p.reason ++ property_bytes))

unfoldable pub serialize : ℕ → Disconnect → Result (List ℕ)
serialize indeterminate p = serialize_packet indeterminate type_value 0 (serialize_body p)
