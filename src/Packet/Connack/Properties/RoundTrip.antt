-- ===== src/Packet/Connack/Properties/RoundTrip.antt =====
-- The properties of CONNACK are read back as they were, but for authentication data with no method.
use mqtt.Base.{ℕ, ◌^◌, ◌<◌, ◌≡◌, ◌≢◌, List, ◌++◌, ok, arith, ◌∙◌, drop, All, ◌>>=◌, true}
use mqtt.Property.{Property, activate_id, as_integral, as_string}
use mqtt.Properties.Fields.{for_each}
use mqtt.Properties.Fields.Out.{stored, stored_fields}
use mqtt.Properties.Fields.Written.{written, written-apart, IsForeign-append}
use mqtt.Properties.Fields.In.{read_bool, read_string, read_number, for_each-embed}
use mqtt.Properties.Fields.Struct.{
  IsSendableStruct, struct_bytes, serialize_struct-bytes, deserialize_struct-bytes,
}
use mqtt.Packet.Shared
use mqtt.Packet.Shared.RoundTrip as SharedTrip
use mqtt.Packet.Connack.Properties.{
  ConnackProperties, dflt, read_property, own_fields, fields, serialize, deserialize,
}

pub record IsSendable (p : ConnackProperties) : Type 0 where
  pub numbers : SharedTrip.Fits p.shared
  pub keep_alive : p.server_keep_alive < 2 ^ 16
  pub qos : p.maximum_qos < 2 ^ 8
  pub struct_sendable : IsSendableStruct (fields p) p.shared.base

abbrev pub received : ConnackProperties → ConnackProperties
received p = record p { shared = SharedTrip.received p.shared }

module _ (p : ConnackProperties) (s : IsSendable p) where
  abbrev s1 : ConnackProperties
  s1 = record dflt { retain_available = p.retain_available }

  abbrev s2 : ConnackProperties
  s2 = record s1 { maximum_qos = p.maximum_qos }

  abbrev s3 : ConnackProperties
  s3 = record s2 { assigned_client_id = p.assigned_client_id }

  abbrev s4 : ConnackProperties
  s4 = record s3 { reason_string = p.reason_string }

  abbrev s5 : ConnackProperties
  s5 = record s4 { wildcard_subscriptions_available = p.wildcard_subscriptions_available }

  abbrev s6 : ConnackProperties
  s6 = record s5 { subscription_identifiers_available = p.subscription_identifiers_available }

  abbrev s7 : ConnackProperties
  s7 = record s6 { shared_subscription_available = p.shared_subscription_available }

  abbrev s8 : ConnackProperties
  s8 = record s7 { server_keep_alive = p.server_keep_alive }

  abbrev s9 : ConnackProperties
  s9 = record s8 { response_information = p.response_information }

  abbrev s10 : ConnackProperties
  s10 = record s9 { server_reference = p.server_reference }

  hand_on :
      (t : Shared.SharedProperties) (q : Property)
      → All (λ f. q.identifier ≢ f.id) (own_fields p)
      → read_property (record s10 { shared = t }) q
        ≡ (Shared.handle_property t q >>= λ t'. ok (record s10 { shared = t' }))
  unfolding read_property
  hand_on t q h = ground arith

  read_first_half :
      (rest : List Property)
      → for_each read_property (stored_fields (fields p) ++ rest) dflt
        ≡ for_each read_property (stored_fields (drop 5 (fields p)) ++ rest) s5
  unfolding read_property stored activate_id as_integral as_string
  read_first_half rest =
      read_bool read_property true 37 p.retain_available (drop 1 (fields p)) rest dflt s1
        (ground arith) (λ e. rw e)
      ∙ read_number read_property 2 36 p.maximum_qos (drop 2 (fields p)) rest s1 s2
          (ground (arith, s.qos)) (λ e. rw e)
      ∙ read_string read_property 18 p.assigned_client_id (drop 3 (fields p)) rest s2 s3
          (ground arith) (λ e. rw e)
      ∙ read_string read_property 31 p.reason_string (drop 4 (fields p)) rest s3 s4 (ground arith)
          (λ e. rw e)
      ∙ read_bool read_property true 40 p.wildcard_subscriptions_available (drop 5 (fields p)) rest
          s4 s5 (ground arith) (λ e. rw e)

  read_second_half :
      (rest : List Property)
      → for_each read_property (stored_fields (drop 5 (fields p)) ++ rest) s5
        ≡ for_each read_property (stored_fields (Shared.fields p.shared) ++ rest) s10
  unfolding read_property stored activate_id as_integral as_string
  read_second_half rest =
      read_bool read_property true 41 p.subscription_identifiers_available (drop 6 (fields p)) rest
        s5 s6 (ground arith) (λ e. rw e)
      ∙ read_bool read_property true 42 p.shared_subscription_available (drop 7 (fields p)) rest s6
          s7 (ground arith) (λ e. rw e)
      ∙ read_number read_property 0 19 p.server_keep_alive (drop 8 (fields p)) rest s7 s8
          (ground (arith, s.keep_alive)) (λ e. rw e)
      ∙ read_string read_property 26 p.response_information (drop 9 (fields p)) rest s8 s9
          (ground arith) (λ e. rw e)
      ∙ read_string read_property 28 p.server_reference (Shared.fields p.shared) rest s9 s10
          (ground arith) (λ e. rw e)

  for_each-written :
      for_each read_property (written (fields p) p.shared.base) dflt ≡ ok (received p)
  for_each-written =
      let foreign = s.struct_sendable.base_sendable.apart.foreign in
      let (own, shared) =
        IsForeign-append (own_fields p) (Shared.fields p.shared) p.shared.base.unknown_properties
          foreign in
      read_first_half _
      ∙ read_second_half _
      ∙ for_each-embed read_property Shared.handle_property (λ t. record s10 { shared = t })
          (λ q. All (λ f. q.identifier ≢ f.id) (own_fields p)) hand_on
          (written (Shared.fields p.shared) p.shared.base) Shared.dflt
          (SharedTrip.received p.shared)
          (written-apart (own_fields p) (Shared.fields p.shared) p.shared.base (omega arith) own)
          (SharedTrip.for_each-written p.shared s.numbers shared)

  pub serialize-bytes : serialize p ≡ ok (struct_bytes (fields p) p.shared.base)
  unfolding serialize activate_id
  serialize-bytes =
      serialize_struct-bytes (fields p) p.shared.base s.struct_sendable
        (
          tt,
          (
            tt,
            (tt, (tt, (tt, (tt, (tt, (tt, (tt, (tt, (tt, (tt, (tt, (tt, (tt, (tt, tt)))))))))))))),
          ),
        )
        (omega arith)

  pub deserialize-bytes :
      (rest : List ℕ)
      → deserialize (struct_bytes (fields p) p.shared.base ++ rest) ≡ ok (received p, rest)
  unfolding deserialize
  deserialize-bytes rest =
      deserialize_struct-bytes (fields p) p.shared.base s.struct_sendable read_property dflt
        (received p) rest for_each-written
