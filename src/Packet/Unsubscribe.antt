-- ===== src/Packet/Unsubscribe.antt =====
-- include/mqtt5/protocol/unsubscribe.hpp: UNSUBSCRIBE.
pub mod RoundTrip
use mqtt.Base.{ℕ, zero, suc, List, [], ◌∷◌, ◌++◌, Result, ok, err, out_of_fuel, ◌>>=◌, length}
use mqtt.Wire.Fetcher.{Reader, cspan}
use mqtt.Wire.FixedInt.{u16}
use mqtt.Wire.FixedInt
use mqtt.Wire.Text.{serialize_string, deserialize_string}
use mqtt.Property.{Property}
use mqtt.Properties.{BaseProperties, no_base, handle_property}
use mqtt.Properties.Fields.Struct.{serialize_struct, deserialize_struct}
use mqtt.Header.{Header}
use mqtt.Packet.Framing.{serialize_packet}

-- Its `properties_t` has no field of its own.
pub record Unsubscribe : Type 0 where
  pub packet_identifier : ℕ
  pub properties : BaseProperties
  pub topics : List (List ℕ)

abbrev pub type_value : ℕ
type_value = 10

unfoldable pub read_property : BaseProperties → Property → Result BaseProperties
read_property retval prop = handle_property prop retval

unfoldable pub deserialize_properties : Reader BaseProperties
deserialize_properties = deserialize_struct read_property no_base

unfoldable pub serialize_properties : BaseProperties → Result (List ℕ)
serialize_properties base = serialize_struct [] base

-- `while(!data.empty())`, with fuel for its rounds.
unfoldable pub topics_loop : ℕ → List ℕ → Result (List (List ℕ))
topics_loop fuel [] = ok []
topics_loop zero (b ∷ bs) = err out_of_fuel
topics_loop (suc fuel) (b ∷ bs) = do
  (topic, rest) ← deserialize_string (b ∷ bs)
  topics ← topics_loop fuel rest
  ok (topic ∷ topics)

unfoldable pub deserialize_fields : List ℕ → Result Unsubscribe
deserialize_fields span = do
  (packet_identifier, span') ← FixedInt.deserialize u16 span
  (properties, rest) ← deserialize_properties span'
  topics ← topics_loop (length rest) rest
  ok (record { packet_identifier = packet_identifier; properties = properties; topics = topics })

unfoldable pub deserialize : Header → List ℕ → Result Unsubscribe
deserialize hdr fetched = do
  data_span ← cspan hdr.remaining_length fetched
  deserialize_fields data_span

abbrev pub topics_bytes : List (List ℕ) → List ℕ
topics_bytes [] = []
topics_bytes (t ∷ ts) = serialize_string t ++ topics_bytes ts

unfoldable pub serialize_body : Unsubscribe → Result (List ℕ)
serialize_body p = do
  property_bytes ← serialize_properties p.properties
  ok (FixedInt.serialize u16 p.packet_identifier ++ (property_bytes ++ topics_bytes p.topics))

unfoldable pub serialize : ℕ → Unsubscribe → Result (List ℕ)
serialize indeterminate p = serialize_packet indeterminate type_value 2 (serialize_body p)
