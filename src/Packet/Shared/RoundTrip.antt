-- ===== src/Packet/Shared/RoundTrip.antt =====
-- What the shared properties are read back as.
use mqtt.Base.{
  ◌^◌, ◌<◌, ◌≡◌, refl, List, [], ◌++◌, ok, arith, All, ◌∙◌, bytes_eq, if◌then◌else◌, not, drop,
}
use mqtt.Property.{Property, bytes, activate_id, as_string, as_binary, as_integral, as_pair}
use mqtt.Properties
use mqtt.Properties.Fields.{for_each}
use mqtt.Properties.Fields.Out.{stored, stored_fields, user}
use mqtt.Properties.Fields.Written.{written, IsForeign}
use mqtt.Properties.Fields.In.{read_field, read_string, read_number}
use mqtt.Properties.Fields.Struct.{read_base}
use mqtt.Packet.Shared.{SharedProperties, dflt, handle_property, fields}

-- The numbers lie within their C++ types.
pub record Fits (p : SharedProperties) : Type 0 where
  pub expiry : p.session_expiry_interval < 2 ^ 32
  pub packet_size : p.maximum_packet_size < 2 ^ 32
  pub alias : p.topic_alias_maximum < 2 ^ 16
  pub receive : p.receive_maximum < 2 ^ 16

-- Authentication data with no method are not written.
abbrev pub received : SharedProperties → SharedProperties
received p = record p {
  authentication_data = if bytes_eq p.authentication_method [] then [] else p.authentication_data;
}

module _ (p : SharedProperties) (h : Fits p) where
  abbrev s1 : SharedProperties
  s1 = record dflt { authentication_method = p.authentication_method }

  abbrev s2 : SharedProperties
  s2 = record s1 { authentication_data = (received p).authentication_data }

  abbrev s3 : SharedProperties
  s3 = record s2 { session_expiry_interval = p.session_expiry_interval }

  abbrev s4 : SharedProperties
  s4 = record s3 { maximum_packet_size = p.maximum_packet_size }

  abbrev s5 : SharedProperties
  s5 = record s4 { topic_alias_maximum = p.topic_alias_maximum }

  abbrev s6 : SharedProperties
  s6 = record s5 { receive_maximum = p.receive_maximum }

  read_data :
      (rest : List Property)
      → for_each handle_property (stored_fields (drop 1 (fields p)) ++ rest) s1
        ≡ for_each handle_property (stored_fields (drop 2 (fields p)) ++ rest) s2
  unfolding handle_property stored activate_id as_binary
  read_data rest =
      read_field handle_property
        (record {
          differs = not (bytes_eq p.authentication_method []);
          id = 22;
          given = bytes p.authentication_data;
        })
        (drop 2 (fields p)) rest s1 s2 (λ e. ground arith) (λ e. ground arith)

  pub for_each-written :
      All (IsForeign (fields p)) p.base.unknown_properties
      → for_each handle_property (written (fields p) p.base) dflt ≡ ok (received p)
  unfolding handle_property stored activate_id as_string as_integral user Properties.handle_property
      as_pair
  for_each-written foreign =
      read_string handle_property 21 p.authentication_method (drop 1 (fields p)) _ dflt s1 refl
        (λ e. rw e)
      ∙ read_data _
      ∙ read_number handle_property 0 17 p.session_expiry_interval (drop 3 (fields p)) _ s2 s3
          (ground arith) (λ e. rw e)
      ∙ read_number handle_property 0xFFFF_FFFF 39 p.maximum_packet_size (drop 4 (fields p)) _ s3 s4
          (ground arith) (λ e. rw e)
      ∙ read_number handle_property 0 34 p.topic_alias_maximum (drop 5 (fields p)) _ s4 s5
          (ground arith) (λ e. rw e)
      ∙ read_number handle_property 0xFFFF 33 p.receive_maximum [] _ s5 s6 (ground arith)
          (λ e. rw e)
      ∙ read_base handle_property (λ b. record s6 { base = b }) (fields p) p.base (λ b kv. refl)
          (λ b q f. ground arith) foreign
