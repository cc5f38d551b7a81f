-- ===== src/Packet/Shared.antt =====
-- include/mqtt5/protocol/connect.hpp: `detail::connect_connack_properties_t`, the properties that
-- CONNECT and CONNACK share.
pub mod RoundTrip
use mqtt.Base.{ℕ, List, [], ◌∷◌, not, Result, ok, ◌==◌, if◌then◌else◌, ◌>>=◌, bytes_eq}
use mqtt.Wire.FixedInt.{u16, u32}
use mqtt.Property.{Property, bytes, as_string, as_binary, as_integral}
use mqtt.Properties.{BaseProperties, no_base}
use mqtt.Properties
use mqtt.Properties.Fields.{Field, string_field, number_field}

pub record SharedProperties : Type 0 where
  pub base : BaseProperties
  pub authentication_method : List ℕ
  pub authentication_data : List ℕ
  pub session_expiry_interval : ℕ
  pub maximum_packet_size : ℕ
  pub topic_alias_maximum : ℕ
  pub receive_maximum : ℕ

abbrev pub dflt : SharedProperties
dflt = record {
  base = no_base;
  authentication_method = [];
  authentication_data = [];
  session_expiry_interval = 0;
  maximum_packet_size = 0xFFFF_FFFF;
  topic_alias_maximum = 0;
  receive_maximum = 0xFFFF;
}

unfoldable pub handle_property : SharedProperties → Property → Result SharedProperties
handle_property p prop =
    if prop.identifier == 21
    then (do v ← as_string prop.value; ok (record p { authentication_method = v }))
    else if prop.identifier == 22
    then (do v ← as_binary prop.value; ok (record p { authentication_data = v }))
    else if prop.identifier == 17
    then (do v ← as_integral u32 prop.value; ok (record p { session_expiry_interval = v }))
    else if prop.identifier == 39
    then (do v ← as_integral u32 prop.value; ok (record p { maximum_packet_size = v }))
    else if prop.identifier == 34
    then (do v ← as_integral u16 prop.value; ok (record p { topic_alias_maximum = v }))
    else if prop.identifier == 33
    then (do v ← as_integral u16 prop.value; ok (record p { receive_maximum = v }))
    else (do base ← Properties.handle_property prop p.base; ok (record p { base = base }))

-- The calls of `add_base_properties` before those of the base class. The authentication data go with
-- the method.
abbrev pub fields : SharedProperties → List Field
fields p =
    string_field 21 p.authentication_method
    ∷ record {
      differs = not (bytes_eq p.authentication_method []);
      id = 22;
      given = bytes p.authentication_data;
    }
    ∷ number_field 0 17 p.session_expiry_interval
    ∷ number_field 0xFFFF_FFFF 39 p.maximum_packet_size
    ∷ number_field 0 34 p.topic_alias_maximum
    ∷ number_field 0xFFFF 33 p.receive_maximum
    ∷ []
