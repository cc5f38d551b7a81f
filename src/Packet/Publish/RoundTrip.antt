-- ===== src/Packet/Publish/RoundTrip.antt =====
-- What a PUBLISH packet is read back as.
use mqtt.Base.{
  ℕ, ◌+◌, ◌*◌, ◌^◌, ◌<◌, ◌≤◌, ◌≡◌, ◌↔◌, List, [], ◌++◌, ok, ◌>>=◌, arith, All, All-append, length,
  if◌then◌else◌, ◌==◌, not,
}
use mqtt.Base.Bits.{bit_and-15}
use mqtt.Wire.Fetcher.{cspan-all}
use mqtt.Wire.FixedInt.{u16, deserialize-serialize}
use mqtt.Wire.FixedInt
use mqtt.Wire.VarlenInt.{max_value}
use mqtt.Wire.VarlenInt.Encode.{groups}
use mqtt.Wire.Text.{serialize_string}
use mqtt.Wire.Text.RoundTrip.{IsShort, string_round_trip}
use mqtt.Property.{activate_id}
use mqtt.Property.Codec.{IsWellTyped}
use mqtt.Properties.RoundTrip.{encodings, serialize-encodings, deserialize-encodings}
use mqtt.Properties.Fields.Out.{stored_fields}
use mqtt.Properties.Fields.Written.{users}
use mqtt.Properties.Fields.Typed.{
  FieldsHold, IsSendableBase, stored_fields-IsWellTyped, users-IsWellTyped,
}
use mqtt.Header.{get_flags}
use mqtt.Packet.Framing.{framed_header}
use mqtt.Packet.Publish.{
  Publish, type_value, get_quality_of_service, read_identifier, deserialize_fields, deserialize,
  serialize_body,
}
use mqtt.Packet.Publish.Properties.{PublishProperties, first_fields, last_fields}
use mqtt.Packet.Publish.Properties
use mqtt.Packet.Publish.Properties.Writing.{other_fields, listed, to_properties-listed}
use mqtt.Packet.Publish.Properties.Reading.{received, for_each-listed}

-- Properties that can be written and read: no subscription identifier, numbers within their C++
-- types, strings of 16-bit length, and unknown properties apart from the known ones.
pub record IsSendable (p : PublishProperties) : Type 0 where
  pub no_identifier : p.subscription_identifier ≡ 0
  pub expiry : p.message_expiry_interval < 2 ^ 32
  pub alias : p.topic_alias < 2 ^ 16
  pub indicator : p.payload_format_indicator < 2 ^ 8
  pub short_topic : IsShort p.response_topic
  pub short_type : IsShort p.content_type
  pub short_data : IsShort p.correlation_data
  pub base_sendable : IsSendableBase (first_fields p ++ last_fields p) p.base
  pub fits : length (encodings (listed p)) ≤ max_value

module _ (p : PublishProperties) (s : IsSendable p) where
  first_fields-Hold : FieldsHold (first_fields p)
  unfolding activate_id
  first_fields-Hold = omega arith

  other_fields-Hold : FieldsHold (other_fields p)
  unfolding activate_id
  other_fields-Hold = omega arith

  listed-IsWellTyped : All IsWellTyped (listed p)
  listed-IsWellTyped =
      let us = users-IsWellTyped p.base.user_property s.base_sendable.short_users in
      All-append IsWellTyped (stored_fields (first_fields p)) _
        (stored_fields-IsWellTyped (first_fields p) first_fields-Hold)
        (All-append IsWellTyped (users p.base.user_property) _ us (
          All-append IsWellTyped (stored_fields (other_fields p)) _
            (stored_fields-IsWellTyped (other_fields p) other_fields-Hold)
            (All-append IsWellTyped (users p.base.user_property) _ us
              s.base_sendable.typed_unknown)))

  -- The bytes of the properties.
  abbrev pub property_bytes : List ℕ
  property_bytes = groups 3 (length (encodings (listed p))) ++ encodings (listed p)

  pub serialize-property_bytes : Properties.serialize p ≡ ok property_bytes
  unfolding Properties.serialize
  serialize-property_bytes = ground (
    arith,
    to_properties-listed p s.no_identifier s.base_sendable.apart,
    serialize-encodings (listed p) listed-IsWellTyped s.fits,
  )

  pub deserialize-property_bytes :
      (rest : List ℕ) → Properties.deserialize (property_bytes ++ rest) ≡ ok (received p, rest)
  unfolding Properties.deserialize
  deserialize-property_bytes rest = ground (
    arith,
    deserialize-encodings (listed p) rest listed-IsWellTyped s.fits,
    for_each-listed p s.no_identifier s.expiry s.alias s.indicator s.base_sendable.apart.foreign,
  )

  -- The properties of a PUBLISH that can be written are read back with each user property twice
  -- and the expiry interval cut to 16 bits, and otherwise as they were.
  pub properties_round_trip :
      (rest : List ℕ)
      → (Properties.serialize p >>= λ written. Properties.deserialize (written ++ rest))
        ≡ ok (received p, rest)
  properties_round_trip rest = rw serialize-property_bytes (deserialize-property_bytes rest)

pub identifier_bytes : ℕ → List ℕ
identifier_bytes id = if not (id == 0) then FixedInt.serialize u16 id else []

-- The writer goes by the identifier and the reader by the quality of service: they agree where the
-- one is 0 exactly if the other is.
read_identifier-written :
    (flags id : ℕ) (rest : List ℕ)
    → id < 2 ^ 16
    → (get_quality_of_service flags ≡ 0) ↔ (id ≡ 0)
    → read_identifier flags (identifier_bytes id ++ rest) ≡ ok (id, rest)
unfolding read_identifier identifier_bytes
read_identifier-written flags id rest hi agree =
    ground (arith, agree.0, agree.1, deserialize-serialize u16 id rest hi)

-- A packet that can be written and read.
pub record IsSendablePublish (p : Publish) : Type 0 where
  pub flags : p.header_flags < 16
  pub topic : IsShort p.topic
  pub identifier : p.packet_identifier < 2 ^ 16
  pub agree : (get_quality_of_service p.header_flags ≡ 0) ↔ (p.packet_identifier ≡ 0)
  pub properties : IsSendable p.properties

abbrev pub received_publish : Publish → Publish
received_publish p = record p { properties = received p.properties }

module _ (p : Publish) (s : IsSendablePublish p) where
  abbrev pub body_bytes : List ℕ
  body_bytes =
      serialize_string p.topic
      ++ (identifier_bytes p.packet_identifier
          ++ (property_bytes p.properties s.properties ++ p.payload))

  pub serialize_body-body_bytes : serialize_body p ≡ ok body_bytes
  unfolding serialize_body identifier_bytes
  serialize_body-body_bytes = ground (arith, serialize-property_bytes p.properties s.properties)

  deserialize_fields-body_bytes :
      deserialize_fields p.header_flags body_bytes ≡ ok (received_publish p)
  unfolding deserialize_fields identifier_bytes
  deserialize_fields-body_bytes = ground (
    arith,
    string_round_trip p.topic
        (identifier_bytes p.packet_identifier
          ++ (property_bytes p.properties s.properties ++ p.payload))
        s.topic,
    read_identifier-written p.header_flags p.packet_identifier
        (property_bytes p.properties s.properties ++ p.payload) s.identifier s.agree,
    deserialize-property_bytes p.properties s.properties p.payload,
  )

  pub deserialize-body_bytes :
      deserialize (framed_header type_value p.header_flags body_bytes) body_bytes
      ≡ ok (received_publish p)
  unfolding deserialize get_flags
  deserialize-body_bytes = ground (
    arith,
    cspan-all body_bytes,
    bit_and-15 (type_value * 16 + p.header_flags) (omega arith),
    deserialize_fields-body_bytes,
  )
