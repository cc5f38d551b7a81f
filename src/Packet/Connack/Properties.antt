-- ===== src/Packet/Connack/Properties.antt =====
-- include/mqtt5/protocol/connect.hpp: `connack::properties_t`.
pub mod RoundTrip
use mqtt.Base.{ℕ, List, [], ◌∷◌, ◌++◌, Bool, true, not, Result, ok, ◌==◌, if◌then◌else◌, ◌>>=◌}
use mqtt.Wire.Fetcher.{Reader}
use mqtt.Wire.FixedInt.{u8, u16}
use mqtt.Property.{Property, as_integral, as_string}
use mqtt.Properties.Fields.{Field, string_field, number_field, bool_field}
use mqtt.Properties.Fields.Struct.{serialize_struct, deserialize_struct}
use mqtt.Packet.Shared.{SharedProperties}
use mqtt.Packet.Shared

pub record ConnackProperties : Type 0 where
  pub shared : SharedProperties
  pub assigned_client_id : List ℕ
  pub reason_string : List ℕ
  pub response_information : List ℕ
  pub server_reference : List ℕ
  pub server_keep_alive : ℕ
  pub maximum_qos : ℕ
  pub retain_available : Bool
  pub wildcard_subscriptions_available : Bool
  pub subscription_identifiers_available : Bool
  pub shared_subscription_available : Bool

abbrev pub dflt : ConnackProperties
dflt = record {
  shared = Shared.dflt;
  assigned_client_id = [];
  reason_string = [];
  response_information = [];
  server_reference = [];
  server_keep_alive = 0;
  maximum_qos = 2;
  retain_available = true;
  wildcard_subscriptions_available = true;
  subscription_identifiers_available = true;
  shared_subscription_available = true;
}

-- A byte is converted to `bool`.
unfoldable pub read_property : ConnackProperties → Property → Result ConnackProperties
read_property retval prop =
    if prop.identifier == 36
    then (do v ← as_integral u8 prop.value; ok (record retval { maximum_qos = v }))
    else if prop.identifier == 37
    then (do v ← as_integral u8 prop.value; ok (record retval { retain_available = not (v == 0) }))
    else if prop.identifier == 18
    then (do v ← as_string prop.value; ok (record retval { assigned_client_id = v }))
    else if prop.identifier == 31
    then (do v ← as_string prop.value; ok (record retval { reason_string = v }))
    else if prop.identifier == 40
    then (do
      v ← as_integral u8 prop.value
      ok (record retval { wildcard_subscriptions_available = not (v == 0) }))
    else if prop.identifier == 41
    then (do
      v ← as_integral u8 prop.value
      ok (record retval { subscription_identifiers_available = not (v == 0) }))
    else if prop.identifier == 42
    then (do
      v ← as_integral u8 prop.value
      ok (record retval { shared_subscription_available = not (v == 0) }))
    else if prop.identifier == 19
    then (do v ← as_integral u16 prop.value; ok (record retval { server_keep_alive = v }))
    else if prop.identifier == 26
    then (do v ← as_string prop.value; ok (record retval { response_information = v }))
    else if prop.identifier == 28
    then (do v ← as_string prop.value; ok (record retval { server_reference = v }))
    else (do
      shared ← Shared.handle_property retval.shared prop
      ok (record retval { shared = shared }))

unfoldable pub deserialize : Reader ConnackProperties
deserialize = deserialize_struct read_property dflt

abbrev pub own_fields : ConnackProperties → List Field
own_fields p =
    bool_field true 37 p.retain_available
    ∷ number_field 2 36 p.maximum_qos
    ∷ string_field 18 p.assigned_client_id
    ∷ string_field 31 p.reason_string
    ∷ bool_field true 40 p.wildcard_subscriptions_available
    ∷ bool_field true 41 p.subscription_identifiers_available
    ∷ bool_field true 42 p.shared_subscription_available
    ∷ number_field 0 19 p.server_keep_alive
    ∷ string_field 26 p.response_information
    ∷ string_field 28 p.server_reference
    ∷ []

abbrev pub fields : ConnackProperties → List Field
fields p = own_fields p ++ Shared.fields p.shared

unfoldable pub serialize : ConnackProperties → Result (List ℕ)
serialize p = serialize_struct (fields p) p.shared.base
