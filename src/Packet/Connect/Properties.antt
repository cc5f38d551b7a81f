-- ===== src/Packet/Connect/Properties.antt =====
-- include/mqtt5/protocol/connect.hpp: `connect::properties_t`.
pub mod RoundTrip
use mqtt.Base.{ℕ, List, [], ◌∷◌, ◌++◌, Bool, false, not, Result, ok, ◌==◌, if◌then◌else◌, ◌>>=◌}
use mqtt.Wire.Fetcher.{Reader}
use mqtt.Wire.FixedInt.{u8}
use mqtt.Property.{Property, as_integral}
use mqtt.Properties.Fields.{Field, bool_field}
use mqtt.Properties.Fields.Struct.{serialize_struct, deserialize_struct}
use mqtt.Packet.Shared.{SharedProperties}
use mqtt.Packet.Shared

pub record ConnectProperties : Type 0 where
  pub shared : SharedProperties
  pub request_response_information : Bool
  pub request_problem_information : Bool

abbrev pub dflt : ConnectProperties
dflt = record {
  shared = Shared.dflt;
  request_response_information = false;
  request_problem_information = false;
}

-- A byte is converted to `bool`.
unfoldable pub read_property : ConnectProperties → Property → Result ConnectProperties
read_property retval prop =
    if prop.identifier == 25
    then (do
      v ← as_integral u8 prop.value
      ok (record retval { request_response_information = not (v == 0) }))
    else if prop.identifier == 23
    then (do
      v ← as_integral u8 prop.value
      ok (record retval { request_problem_information = not (v == 0) }))
    else (do
      shared ← Shared.handle_property retval.shared prop
      ok (record retval { shared = shared }))

unfoldable pub deserialize : Reader ConnectProperties
deserialize = deserialize_struct read_property dflt

abbrev pub own_fields : ConnectProperties → List Field
own_fields p =
    bool_field false 25 p.request_response_information
    ∷ bool_field false 23 p.request_problem_information
    ∷ []

abbrev pub fields : ConnectProperties → List Field
fields p = own_fields p ++ Shared.fields p.shared

unfoldable pub serialize : ConnectProperties → Result (List ℕ)
serialize p = serialize_struct (fields p) p.shared.base
