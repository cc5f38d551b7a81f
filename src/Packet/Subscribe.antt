-- ===== src/Packet/Subscribe.antt =====
-- include/mqtt5/protocol/subscribe.hpp: SUBSCRIBE.
pub mod RoundTrip
use mqtt.Base.{
  ℕ, zero, suc, List, [], ◌∷◌, ◌++◌, Result, ok, err, out_of_fuel, ◌>>=◌, ◌==◌, if◌then◌else◌,
  length,
}
use mqtt.Wire.Fetcher.{Reader, cspan}
use mqtt.Wire.FixedInt.{u8, u16, u32}
use mqtt.Wire.FixedInt
use mqtt.Wire.Text.{serialize_string, deserialize_string}
use mqtt.Property.{Property, as_integral}
use mqtt.Properties.{BaseProperties, no_base, handle_property}
use mqtt.Properties.Fields.{Field, number_field}
use mqtt.Properties.Fields.Struct.{serialize_struct, deserialize_struct}
use mqtt.Header.{Header}
use mqtt.Packet.Framing.{serialize_packet}

pub record SubscribeProperties : Type 0 where
  pub base : BaseProperties
  pub subscription_identifier : ℕ

abbrev pub dflt : SubscribeProperties
dflt = record { base = no_base; subscription_identifier = 0 }

unfoldable pub read_property : SubscribeProperties → Property → Result SubscribeProperties
read_property retval prop =
    if prop.identifier == 11
    then (do v ← as_integral u32 prop.value; ok (record retval { subscription_identifier = v }))
    else (do base ← handle_property prop retval.base; ok (record retval { base = base }))

unfoldable pub deserialize_properties : Reader SubscribeProperties
deserialize_properties = deserialize_struct read_property dflt

abbrev pub fields : SubscribeProperties → List Field
fields p = number_field 0 11 p.subscription_identifier ∷ []

unfoldable pub serialize_properties : SubscribeProperties → Result (List ℕ)
serialize_properties p = serialize_struct (fields p) p.base

-- `subscribe::topic_filter`
pub record FilterOptions : Type 0 where
  pub topic : List ℕ
  pub options : ℕ

pub record Subscribe : Type 0 where
  pub packet_identifier : ℕ
  pub properties : SubscribeProperties
  pub topics : List FilterOptions

abbrev pub type_value : ℕ
type_value = 8

-- `while(!data.empty())`, with fuel for its rounds.
unfoldable pub topics_loop : ℕ → List ℕ → Result (List FilterOptions)
topics_loop fuel [] = ok []
topics_loop zero (b ∷ bs) = err out_of_fuel
topics_loop (suc fuel) (b ∷ bs) = do
  (topic, span) ← deserialize_string (b ∷ bs)
  (options, rest) ← FixedInt.deserialize u8 span
  topics ← topics_loop fuel rest
  ok (record { topic = topic; options = options } ∷ topics)

unfoldable pub deserialize_fields : List ℕ → Result Subscribe
deserialize_fields span = do
  (packet_identifier, span') ← FixedInt.deserialize u16 span
  (properties, rest) ← deserialize_properties span'
  topics ← topics_loop (length rest) rest
  ok (record { packet_identifier = packet_identifier; properties = properties; topics = topics })

unfoldable pub deserialize : Header → List ℕ → Result Subscribe
deserialize hdr fetched = do
  data_span ← cspan hdr.remaining_length fetched
  deserialize_fields data_span

abbrev pub topics_bytes : List FilterOptions → List ℕ
topics_bytes [] = []
topics_bytes (f ∷ fs) =
    serialize_string f.topic ++ (FixedInt.serialize u8 f.options ++ topics_bytes fs)

unfoldable pub serialize_body : Subscribe → Result (List ℕ)
serialize_body p = do
  property_bytes ← serialize_properties p.properties
  ok (FixedInt.serialize u16 p.packet_identifier ++ (property_bytes ++ topics_bytes p.topics))

unfoldable pub serialize : ℕ → Subscribe → Result (List ℕ)
serialize indeterminate p = serialize_packet indeterminate type_value 2 (serialize_body p)
