-- ===== src/Packet/Will.antt =====
-- include/mqtt5/protocol/connect.hpp: `connect::will_properties_t`.
pub mod RoundTrip
use mqtt.Base.{ℕ, List, [], ◌∷◌, Result, ok, ◌==◌, if◌then◌else◌, ◌>>=◌}
use mqtt.Wire.Fetcher.{Reader}
use mqtt.Wire.FixedInt.{u8, u32}
use mqtt.Property.{Property, as_string, as_binary, as_integral}
use mqtt.Properties.{BaseProperties, no_base, handle_property}
use mqtt.Properties.Fields.{Field, string_field, bytes_field, number_field}
use mqtt.Properties.Fields.Struct.{serialize_struct, deserialize_struct}

pub record WillProperties : Type 0 where
  pub base : BaseProperties
  pub content_type : List ℕ
  pub response_topic : List ℕ
  pub correlation_data : List ℕ
  pub delay_interval : ℕ
  pub message_expiry_interval : ℕ
  pub payload_format_indicator : ℕ

abbrev pub dflt : WillProperties
dflt = record {
  base = no_base;
  content_type = [];
  response_topic = [];
  correlation_data = [];
  delay_interval = 0;
  message_expiry_interval = 0;
  payload_format_indicator = 0;
}

unfoldable pub read_property : WillProperties → Property → Result WillProperties
read_property retval prop =
    if prop.identifier == 3
    then (do v ← as_string prop.value; ok (record retval { content_type = v }))
    else if prop.identifier == 8
    then (do v ← as_string prop.value; ok (record retval { response_topic = v }))
    else if prop.identifier == 9
    then (do v ← as_binary prop.value; ok (record retval { correlation_data = v }))
    else if prop.identifier == 24
    then (do v ← as_integral u32 prop.value; ok (record retval { delay_interval = v }))
    else if prop.identifier == 2
    then (do v ← as_integral u32 prop.value; ok (record retval { message_expiry_interval = v }))
    else if prop.identifier == 1
    then (do v ← as_integral u8 prop.value; ok (record retval { payload_format_indicator = v }))
    else (do base ← handle_property prop retval.base; ok (record retval { base = base }))

unfoldable pub deserialize : Reader WillProperties
deserialize = deserialize_struct read_property dflt

abbrev pub fields : WillProperties → List Field
fields p =
    string_field 3 p.content_type
    ∷ bytes_field 9 p.correlation_data
    ∷ string_field 8 p.response_topic
    ∷ number_field 0 1 p.payload_format_indicator
    ∷ number_field 0 24 p.delay_interval
    ∷ number_field 0 2 p.message_expiry_interval
    ∷ []

unfoldable pub serialize : WillProperties → Result (List ℕ)
serialize p = serialize_struct (fields p) p.base
