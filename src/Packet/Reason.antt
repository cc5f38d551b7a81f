-- ===== src/Packet/Reason.antt =====
-- The `properties_t` of PUBACK, PUBREC, PUBREL, PUBCOMP (include/mqtt5/protocol/publish.hpp), SUBACK
-- (subscribe.hpp) and UNSUBACK (unsubscribe.hpp), three texts of one struct: a reason string.
pub mod RoundTrip
use mqtt.Base.{ℕ, List, [], ◌∷◌, Result, ok, ◌==◌, if◌then◌else◌, ◌>>=◌}
use mqtt.Wire.Fetcher.{Reader}
use mqtt.Property.{Property, as_string}
use mqtt.Properties.{BaseProperties, no_base, handle_property}
use mqtt.Properties.Fields.{Field, string_field}
use mqtt.Properties.Fields.Struct.{serialize_struct, deserialize_struct}

pub record ReasonProperties : Type 0 where
  pub base : BaseProperties
  pub reason_string : List ℕ

abbrev pub dflt : ReasonProperties
dflt = record { base = no_base; reason_string = [] }

unfoldable pub read_property : ReasonProperties → Property → Result ReasonProperties
read_property retval p =
    if p.identifier == 31
    then (do v ← as_string p.value; ok (record retval { reason_string = v }))
    else (do base ← handle_property p retval.base; ok (record retval { base = base }))

unfoldable pub deserialize : Reader ReasonProperties
deserialize = deserialize_struct read_property dflt

abbrev pub fields : ReasonProperties → List Field
fields p = string_field 31 p.reason_string ∷ []

unfoldable pub serialize : ReasonProperties → Result (List ℕ)
serialize p = serialize_struct (fields p) p.base
