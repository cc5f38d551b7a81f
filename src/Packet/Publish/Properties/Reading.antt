-- ===== src/Packet/Publish/Properties/Reading.antt =====
-- What `publish::properties_t::deserialize` makes of the list that was written.
use mqtt.Base.{◌%◌, ◌^◌, ◌<◌, ◌≡◌, refl, List, [], ◌∷◌, ◌++◌, arith, ok, All, ◌∙◌, drop}
use mqtt.Wire.Text.{KeyValuePair}
use mqtt.Property.{Property, activate_id, as_string, as_binary, as_integral, as_pair}
use mqtt.Properties.{handle_property}
use mqtt.Properties.Fields.{for_each}
use mqtt.Properties.Fields.Out.{stored, stored_fields, user}
use mqtt.Properties.Fields.Written.{IsForeign}
use mqtt.Properties.Fields.In.{read_string, read_bytes, read_number, read_users, read_unknown}
use mqtt.Packet.Publish.Properties.{
  PublishProperties, dflt, read_property, first_fields, last_fields,
}
use mqtt.Packet.Publish.Properties.Writing.{other_fields, listed}

read_user :
    (r : PublishProperties) (unknown : List Property) (us : List KeyValuePair) (kv : KeyValuePair)
    → read_property
        (record r { base = record { user_property = us; unknown_properties = unknown } })
        (user kv)
      ≡ ok (record r {
        base = record { user_property = us ++ kv ∷ []; unknown_properties = unknown };
      })
unfolding read_property user handle_property as_pair
read_user r unknown us kv = refl

read_foreign :
    (r : PublishProperties) (kvs : List KeyValuePair) (us : List Property) (p : Property)
    → IsForeign (first_fields r ++ last_fields r) p
    → read_property (record r { base = record { user_property = kvs; unknown_properties = us } }) p
      ≡ ok (record r { base = record { user_property = kvs; unknown_properties = us ++ p ∷ [] } })
unfolding read_property handle_property
read_foreign r kvs us p h = ground arith

module _ (p : PublishProperties) where
  abbrev s1 : PublishProperties
  s1 = record dflt { response_topic = p.response_topic }

  abbrev s2 : PublishProperties
  s2 = record s1 { content_type = p.content_type }

  abbrev s3 : PublishProperties
  s3 = record s2 { correlation_data = p.correlation_data }

  -- The fields before the user properties.
  read_first :
      (rest : List Property)
      → for_each read_property (stored_fields (first_fields p) ++ rest) dflt
        ≡ for_each read_property rest s3
  unfolding read_property stored activate_id as_string as_binary
  read_first rest =
      read_string read_property 8 p.response_topic (drop 1 (first_fields p)) rest dflt s1 refl
        (λ e. rw e)
      ∙ read_string read_property 3 p.content_type (drop 2 (first_fields p)) rest s1 s2 refl
          (λ e. rw e)
      ∙ read_bytes read_property 9 p.correlation_data [] rest s2 s3 refl (λ e. rw e)

  abbrev s4 : PublishProperties
  s4 = record s3 { base = record { user_property = p.base.user_property; unknown_properties = [] } }

  -- The expiry interval is read as a std::uint16_t.
  abbrev s5 : PublishProperties
  s5 = record s4 { message_expiry_interval = p.message_expiry_interval % 2 ^ 16 }

  abbrev s6 : PublishProperties
  s6 = record s5 { topic_alias = p.topic_alias }

  abbrev s7 : PublishProperties
  s7 = record s6 { payload_format_indicator = p.payload_format_indicator }

  -- The fields behind them.
  read_other :
      (rest : List Property)
      → p.message_expiry_interval < 2 ^ 32
      → p.topic_alias < 2 ^ 16
      → p.payload_format_indicator < 2 ^ 8
      → for_each read_property (stored_fields (other_fields p) ++ rest) s4
        ≡ for_each read_property rest s7
  unfolding read_property stored activate_id as_integral
  read_other rest hm ht hp =
      read_number read_property 0 2 p.message_expiry_interval (drop 1 (other_fields p)) rest s4 s5
        (ground arith) (λ e. rw e)
      ∙ read_number read_property 0 35 p.topic_alias (drop 2 (other_fields p)) rest s5 s6
          (ground arith) (λ e. rw e)
      ∙ read_number read_property 0 1 p.payload_format_indicator [] rest s6 s7 (ground arith)
          (λ e. rw e)

  -- What the packet's reader has of it.
  abbrev pub received : PublishProperties
  received = record p {
    base = record p.base { user_property = p.base.user_property ++ p.base.user_property };
    message_expiry_interval = p.message_expiry_interval % 2 ^ 16;
  }

  pub for_each-listed :
      p.subscription_identifier ≡ 0
      → p.message_expiry_interval < 2 ^ 32
      → p.topic_alias < 2 ^ 16
      → p.payload_format_indicator < 2 ^ 8
      → All (IsForeign (first_fields p ++ last_fields p)) p.base.unknown_properties
      → for_each read_property (listed p) dflt ≡ ok received
  for_each-listed hs hm ht hp foreign =
      read_first _
      ∙ read_users read_property
          (λ us. record s3 { base = record { user_property = us; unknown_properties = [] } }) []
          p.base.user_property _ (λ us kv. read_user s3 [] us kv)
      ∙ read_other _ hm ht hp
      ∙ read_users read_property
          (λ us. record s7 { base = record { user_property = us; unknown_properties = [] } })
          p.base.user_property p.base.user_property _ (λ us kv. read_user s7 [] us kv)
      ∙ read_unknown read_property (IsForeign (first_fields p ++ last_fields p))
          (λ us. record s7 {
            base = record {
              user_property = p.base.user_property ++ p.base.user_property;
              unknown_properties = us;
            };
          })
          [] p.base.unknown_properties (λ us q h. read_foreign s7 _ us q h) foreign
      ∙ ground arith
