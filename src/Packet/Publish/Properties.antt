-- ===== src/Packet/Publish/Properties.antt =====
-- include/mqtt5/protocol/publish.hpp: `publish::properties_t`.
pub mod Writing
pub mod Reading
use mqtt.Base.{ℕ, List, [], ◌∷◌, Bool, Result, ok, ◌==◌, if◌then◌else◌, ◌>>=◌, not, bytes_eq}
use mqtt.Wire.Fetcher.{Reader}
use mqtt.Wire.FixedInt.{u8, u16, u32}
use mqtt.Property.{Property, integral, string, bytes, as_string, as_binary, as_integral}
use mqtt.Properties.{
  BaseProperties, no_base, handle_property, add_user_properties, add_base_properties,
}
use mqtt.Properties
use mqtt.Properties.Fields.{Field, string_field, bytes_field, number_field, add_fields, for_each}

-- Durations are their counts, and the indicator is the number of its enumerator.
pub record PublishProperties : Type 0 where
  pub base : BaseProperties
  pub response_topic : List ℕ
  pub content_type : List ℕ
  pub correlation_data : List ℕ
  pub subscription_identifier : ℕ
  pub message_expiry_interval : ℕ
  pub topic_alias : ℕ
  pub payload_format_indicator : ℕ

abbrev pub dflt : PublishProperties
dflt = record {
  base = no_base;
  response_topic = [];
  content_type = [];
  correlation_data = [];
  subscription_identifier = 0;
  message_expiry_interval = 0;
  topic_alias = 0;
  payload_format_indicator = 0;
}

-- The body of the loop of `deserialize`.
unfoldable pub read_property : PublishProperties → Property → Result PublishProperties
read_property retval prop =
    if prop.identifier == 8
    then (do v ← as_string prop.value; ok (record retval { response_topic = v }))
    else if prop.identifier == 3
    then (do v ← as_string prop.value; ok (record retval { content_type = v }))
    else if prop.identifier == 9
    then (do v ← as_binary prop.value; ok (record retval { correlation_data = v }))
    else if prop.identifier == 11
    then (do v ← as_integral u32 prop.value; ok (record retval { subscription_identifier = v }))
    else if prop.identifier == 2
    then (do v ← as_integral u16 prop.value; ok (record retval { message_expiry_interval = v }))
    else if prop.identifier == 35
    then (do v ← as_integral u16 prop.value; ok (record retval { topic_alias = v }))
    else if prop.identifier == 1
    then (do v ← as_integral u8 prop.value; ok (record retval { payload_format_indicator = v }))
    else (do base ← handle_property prop retval.base; ok (record retval { base = base }))

unfoldable pub deserialize : Reader PublishProperties
deserialize span = do
  (props, rest) ← Properties.deserialize span
  retval ← for_each read_property props dflt
  ok (retval, rest)

-- The `maybe_add` calls above and below the loop over the user properties.
abbrev pub first_fields : PublishProperties → List Field
first_fields p =
    string_field 8 p.response_topic
    ∷ string_field 3 p.content_type
    ∷ bytes_field 9 p.correlation_data
    ∷ []

abbrev pub last_fields : PublishProperties → List Field
last_fields p =
    number_field 0 11 p.subscription_identifier
    ∷ number_field 0 2 p.message_expiry_interval
    ∷ number_field 0 35 p.topic_alias
    ∷ number_field 0 1 p.payload_format_indicator
    ∷ []

-- The list that `serialize` builds. The user properties are added by a loop here, and once more with
-- the base properties.
unfoldable pub to_properties : PublishProperties → Result (List Property)
to_properties p = do
  props ← add_fields (first_fields p) []
  props' ← add_user_properties p.base.user_property props
  props'' ← add_fields (last_fields p) props'
  add_base_properties p.base props''

unfoldable pub serialize : PublishProperties → Result (List ℕ)
serialize p = do props ← to_properties p; Properties.serialize props
