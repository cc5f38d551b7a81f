-- ===== src/Packet/Will/RoundTrip.antt =====
-- The will properties are read back as they were.
use mqtt.Base.{ℕ, ◌^◌, ◌<◌, ◌≡◌, refl, List, [], ◌++◌, ok, arith, ◌∙◌, drop}
use mqtt.Property.{activate_id, as_string, as_binary, as_integral, as_pair}
use mqtt.Properties.{handle_property}
use mqtt.Properties.Fields.{for_each}
use mqtt.Properties.Fields.Out.{stored, user}
use mqtt.Properties.Fields.Written.{written}
use mqtt.Properties.Fields.In.{read_string, read_bytes, read_number}
use mqtt.Properties.Fields.Struct.{
  IsSendableStruct, struct_bytes, serialize_struct-bytes, deserialize_struct-bytes, read_base,
}
use mqtt.Packet.Will.{WillProperties, dflt, read_property, fields, serialize, deserialize}

pub record IsSendable (p : WillProperties) : Type 0 where
  pub delay : p.delay_interval < 2 ^ 32
  pub expiry : p.message_expiry_interval < 2 ^ 32
  pub indicator : p.payload_format_indicator < 2 ^ 8
  pub struct_sendable : IsSendableStruct (fields p) p.base

module _ (p : WillProperties) (s : IsSendable p) where
  abbrev s1 : WillProperties
  s1 = record dflt { content_type = p.content_type }

  abbrev s2 : WillProperties
  s2 = record s1 { correlation_data = p.correlation_data }

  abbrev s3 : WillProperties
  s3 = record s2 { response_topic = p.response_topic }

  abbrev s4 : WillProperties
  s4 = record s3 { payload_format_indicator = p.payload_format_indicator }

  abbrev s5 : WillProperties
  s5 = record s4 { delay_interval = p.delay_interval }

  abbrev s6 : WillProperties
  s6 = record s5 { message_expiry_interval = p.message_expiry_interval }

  for_each-written : for_each read_property (written (fields p) p.base) dflt ≡ ok p
  unfolding read_property stored activate_id as_string as_binary as_integral user handle_property
      as_pair
  for_each-written =
      read_string read_property 3 p.content_type (drop 1 (fields p)) _ dflt s1 refl (λ e. rw e)
      ∙ read_bytes read_property 9 p.correlation_data (drop 2 (fields p)) _ s1 s2 refl (λ e. rw e)
      ∙ read_string read_property 8 p.response_topic (drop 3 (fields p)) _ s2 s3 refl (λ e. rw e)
      ∙ read_number read_property 0 1 p.payload_format_indicator (drop 4 (fields p)) _ s3 s4
          (ground arith) (λ e. rw e)
      ∙ read_number read_property 0 24 p.delay_interval (drop 5 (fields p)) _ s4 s5 (ground arith)
          (λ e. rw e)
      ∙ read_number read_property 0 2 p.message_expiry_interval [] _ s5 s6 (ground arith)
          (λ e. rw e)
      ∙ read_base read_property (λ b. record s6 { base = b }) (fields p) p.base (λ b kv. refl)
          (λ b q f. ground arith) s.struct_sendable.base_sendable.apart.foreign

  pub serialize-bytes : serialize p ≡ ok (struct_bytes (fields p) p.base)
  unfolding serialize activate_id
  serialize-bytes =
      serialize_struct-bytes (fields p) p.base s.struct_sendable
        (tt, (tt, (tt, (tt, (tt, (tt, tt)))))) (omega arith)

  pub deserialize-bytes :
      (rest : List ℕ) → deserialize (struct_bytes (fields p) p.base ++ rest) ≡ ok (p, rest)
  unfolding deserialize
  deserialize-bytes rest =
      deserialize_struct-bytes (fields p) p.base s.struct_sendable read_property dflt p rest
        for_each-written
