-- ===== src/Packet/Subscribe/RoundTrip.antt =====
-- SUBSCRIBE packets with no subscription identifier are read back as they were; one with an
-- identifier cannot be written.
use mqtt.Base.{
  ℕ, zero, suc, ◌^◌, ◌<◌, ◌≤◌, ◌≡◌, ◌≢◌, refl, List, [], ◌∷◌, ◌++◌, ok, err, mismatched_set, ◌>>=◌,
  arith, All, length, length-append,
}
use mqtt.Wire.Fetcher.{cspan-all}
use mqtt.Wire.FixedInt.{u8, u16, deserialize-serialize}
use mqtt.Wire.FixedInt
use mqtt.Wire.Text.{serialize_string, deserialize_string}
use mqtt.Wire.Text.RoundTrip.{IsShort, string_round_trip, length-serialize_string_pos}
use mqtt.Property.{as_pair, make_property, activate_id, assign_value}
use mqtt.Properties.{handle_property, add_value}
use mqtt.Properties.Fields.{for_each, add_fields, maybe_add}
use mqtt.Properties.Fields.Out.{user}
use mqtt.Properties.Fields.Written.{written, IsForeign}
use mqtt.Properties.Fields.Struct.{
  IsSendableStruct, struct_bytes, serialize_struct, serialize_struct-bytes,
  deserialize_struct-bytes, read_base,
}
use mqtt.Packet.Framing.{framed_header}
use mqtt.Packet.Subscribe.{
  Subscribe, FilterOptions, dflt, type_value, read_property, deserialize_properties, fields,
  serialize_properties, topics_loop, topics_bytes, deserialize_fields, deserialize, serialize_body,
}

-- A SUBSCRIBE whose subscription identifier is not 0 cannot be written: its property has a
-- vector active and the assignment throws.
pub serialize_body_with_identifier :
    (p : Subscribe)
    → p.properties.subscription_identifier ≢ 0
    → serialize_body p ≡ err mismatched_set
unfolding serialize_body serialize_properties serialize_struct add_fields maybe_add add_value
    make_property activate_id assign_value
serialize_body_with_identifier p h = ground arith

abbrev pub IsShortFilter : FilterOptions → Type 0
IsShortFilter f = IsShort f.topic × (f.options < 2 ^ 8)

topics_loop_step :
    (fuel : ℕ) (span span' rest : List ℕ) (f : FilterOptions)
    → 0 < length span
    → deserialize_string span ≡ ok (f.topic, span')
    → FixedInt.deserialize u8 span' ≡ ok (f.options, rest)
    → topics_loop (suc fuel) span ≡ (topics_loop fuel rest >>= λ topics. ok (f ∷ topics))
unfolding topics_loop
topics_loop_step fuel [] span' rest f h e e' = absurd (omega arith)
topics_loop_step fuel (b ∷ bs) span' rest f h e e' = ground arith

-- As many rounds as there are bytes are enough.
topics_loop-topics_bytes :
    (fuel : ℕ) (fs : List FilterOptions)
    → All IsShortFilter fs
    → length (topics_bytes fs) ≤ fuel
    → topics_loop fuel (topics_bytes fs) ≡ ok fs
topics_loop-topics_bytes fuel [] short h = unfold topics_loop in refl
topics_loop-topics_bytes zero (f ∷ fs) short h = absurd (
    omega (
      arith,
      length-append (serialize_string f.topic) (FixedInt.serialize u8 f.options ++ topics_bytes fs),
      length-serialize_string_pos f.topic,
    ))
topics_loop-topics_bytes (suc fuel) (f ∷ fs) short h = ground (
  arith,
  length-append (serialize_string f.topic) (FixedInt.serialize u8 f.options ++ topics_bytes fs),
  length-append (FixedInt.serialize u8 f.options) (topics_bytes fs),
  length-serialize_string_pos f.topic,
  topics_loop_step fuel (topics_bytes (f ∷ fs)) (FixedInt.serialize u8 f.options ++ topics_bytes fs)
      (topics_bytes fs) f,
  string_round_trip f.topic (FixedInt.serialize u8 f.options ++ topics_bytes fs) short.0.0,
  deserialize-serialize u8 f.options (topics_bytes fs) short.0.1,
  topics_loop-topics_bytes fuel fs short.1,
)

pub record IsSendableSubscribe (p : Subscribe) : Type 0 where
  pub identifier : p.packet_identifier < 2 ^ 16
  pub no_identifier : p.properties.subscription_identifier ≡ 0
  pub properties : IsSendableStruct [] p.properties.base
  pub foreign : All (IsForeign (fields p.properties)) p.properties.base.unknown_properties
  pub short_topics : All IsShortFilter p.topics

abbrev pub body_bytes : Subscribe → List ℕ
body_bytes p =
    FixedInt.serialize u16 p.packet_identifier
    ++ (struct_bytes [] p.properties.base ++ topics_bytes p.topics)

module _ (p : Subscribe) (s : IsSendableSubscribe p) where
  for_each-written : for_each read_property (written [] p.properties.base) dflt ≡ ok p.properties
  unfolding read_property user handle_property as_pair
  for_each-written =
      rw
        (read_base read_property (λ b. record dflt { base = b }) (fields p.properties)
          p.properties.base (λ b kv. refl) (λ b q h. ground arith) s.foreign)
        (ground (arith, s.no_identifier))

  serialize-no_identifier :
      serialize_properties p.properties ≡ serialize_struct [] p.properties.base
  unfolding serialize_properties serialize_struct add_fields maybe_add
  serialize-no_identifier = ground (arith, s.no_identifier)

  pub serialize_body-body_bytes : serialize_body p ≡ ok (body_bytes p)
  unfolding serialize_body
  serialize_body-body_bytes = ground (
    arith,
    serialize-no_identifier,
    serialize_struct-bytes [] p.properties.base s.properties tt tt,
  )

  pub deserialize-body_bytes :
      deserialize (framed_header type_value 2 (body_bytes p)) (body_bytes p) ≡ ok p
  unfolding deserialize deserialize_fields deserialize_properties
  deserialize-body_bytes = ground (
    arith,
    cspan-all (body_bytes p),
    deserialize-serialize u16 p.packet_identifier
        (struct_bytes [] p.properties.base ++ topics_bytes p.topics) s.identifier,
    deserialize_struct-bytes [] p.properties.base s.properties read_property dflt p.properties
        (topics_bytes p.topics) for_each-written,
    topics_loop-topics_bytes (length (topics_bytes p.topics)) p.topics s.short_topics,
  )
