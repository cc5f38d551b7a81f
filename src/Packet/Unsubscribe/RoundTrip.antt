-- ===== src/Packet/Unsubscribe/RoundTrip.antt =====
-- UNSUBSCRIBE packets are read back as they were.
use mqtt.Base.{
  ℕ, zero, suc, ◌^◌, ◌<◌, ◌≤◌, ◌≡◌, refl, List, [], ◌∷◌, ◌++◌, ok, ◌>>=◌, arith, All, length,
  length-append,
}
use mqtt.Wire.Fetcher.{cspan-all}
use mqtt.Wire.FixedInt.{u16, deserialize-serialize, length-serialize}
use mqtt.Wire.FixedInt
use mqtt.Wire.Text.{serialize_string, deserialize_string}
use mqtt.Wire.Text.RoundTrip.{IsShort, string_round_trip, length-serialize_string_pos}
use mqtt.Property.{as_pair}
use mqtt.Properties.{no_base, handle_property}
use mqtt.Properties.Fields.{for_each}
use mqtt.Properties.Fields.Out.{user}
use mqtt.Properties.Fields.Written.{written}
use mqtt.Properties.Fields.Struct.{
  IsSendableStruct, struct_bytes, serialize_struct-bytes, deserialize_struct-bytes, read_base,
}
use mqtt.Packet.Framing.{framed_header}
use mqtt.Packet.Unsubscribe.{
  Unsubscribe, type_value, read_property, deserialize_properties, serialize_properties, topics_loop,
  topics_bytes, deserialize_fields, deserialize, serialize_body,
}

topics_loop_step :
    (fuel : ℕ) (span topic rest : List ℕ)
    → 0 < length span
    → deserialize_string span ≡ ok (topic, rest)
    → topics_loop (suc fuel) span ≡ (topics_loop fuel rest >>= λ topics. ok (topic ∷ topics))
unfolding topics_loop
topics_loop_step fuel [] topic rest h e = absurd (omega arith)
topics_loop_step fuel (b ∷ bs) topic rest h e = ground arith

-- As many rounds as there are bytes are enough.
topics_loop-topics_bytes :
    (fuel : ℕ) (ts : List (List ℕ))
    → All IsShort ts
    → length (topics_bytes ts) ≤ fuel
    → topics_loop fuel (topics_bytes ts) ≡ ok ts
topics_loop-topics_bytes fuel [] short h = unfold topics_loop in refl
topics_loop-topics_bytes zero (t ∷ ts) short h = absurd (
    omega
      (arith, length-append (serialize_string t) (topics_bytes ts), length-serialize_string_pos t))
topics_loop-topics_bytes (suc fuel) (t ∷ ts) short h = ground (
  arith,
  length-append (serialize_string t) (topics_bytes ts),
  length-serialize_string_pos t,
  topics_loop_step fuel (serialize_string t ++ topics_bytes ts) t (topics_bytes ts),
  string_round_trip t (topics_bytes ts) short.0,
  topics_loop-topics_bytes fuel ts short.1,
)

pub record IsSendableUnsubscribe (p : Unsubscribe) : Type 0 where
  pub identifier : p.packet_identifier < 2 ^ 16
  pub properties : IsSendableStruct [] p.properties
  pub short_topics : All IsShort p.topics

abbrev pub body_bytes : Unsubscribe → List ℕ
body_bytes p =
    FixedInt.serialize u16 p.packet_identifier
    ++ (struct_bytes [] p.properties ++ topics_bytes p.topics)

module _ (p : Unsubscribe) (s : IsSendableUnsubscribe p) where
  for_each-written : for_each read_property (written [] p.properties) no_base ≡ ok p.properties
  unfolding read_property user handle_property as_pair
  for_each-written =
      read_base read_property (λ b. b) [] p.properties (λ b kv. refl) (λ b q h. ground arith)
        s.properties.base_sendable.apart.foreign

  pub serialize_body-body_bytes : serialize_body p ≡ ok (body_bytes p)
  unfolding serialize_body serialize_properties
  serialize_body-body_bytes =
      ground (arith, serialize_struct-bytes [] p.properties s.properties tt tt)

  pub deserialize-body_bytes :
      deserialize (framed_header type_value 2 (body_bytes p)) (body_bytes p) ≡ ok p
  unfolding deserialize deserialize_fields deserialize_properties
  deserialize-body_bytes = ground (
    arith,
    cspan-all (body_bytes p),
    deserialize-serialize u16 p.packet_identifier
        (struct_bytes [] p.properties ++ topics_bytes p.topics) s.identifier,
    deserialize_struct-bytes [] p.properties s.properties read_property no_base p.properties
        (topics_bytes p.topics) for_each-written,
    topics_loop-topics_bytes (length (topics_bytes p.topics)) p.topics s.short_topics,
  )
