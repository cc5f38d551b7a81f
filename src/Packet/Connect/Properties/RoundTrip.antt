-- ===== src/Packet/Connect/Properties/RoundTrip.antt =====
-- The properties of CONNECT are read back as they were, but for authentication data with no method.
use mqtt.Base.{ℕ, ◌≡◌, ◌≢◌, List, ◌++◌, ok, arith, ◌∙◌, drop, All, ◌>>=◌, false}
use mqtt.Property.{Property, activate_id, as_integral}
use mqtt.Properties.Fields.{for_each}
use mqtt.Properties.Fields.Out.{stored}
use mqtt.Properties.Fields.Written.{written, written-apart, IsForeign-append}
use mqtt.Properties.Fields.In.{read_bool, for_each-embed}
use mqtt.Properties.Fields.Struct.{
  IsSendableStruct, struct_bytes, serialize_struct-bytes, deserialize_struct-bytes,
}
use mqtt.Packet.Shared
use mqtt.Packet.Shared.RoundTrip as SharedTrip
use mqtt.Packet.Connect.Properties.{
  ConnectProperties, dflt, read_property, own_fields, fields, serialize, deserialize,
}

pub record IsSendable (p : ConnectProperties) : Type 0 where
  pub numbers : SharedTrip.Fits p.shared
  pub struct_sendable : IsSendableStruct (fields p) p.shared.base

abbrev pub received : ConnectProperties → ConnectProperties
received p = record p { shared = SharedTrip.received p.shared }

module _ (p : ConnectProperties) (s : IsSendable p) where
  abbrev s1 : ConnectProperties
  s1 = record dflt { request_response_information = p.request_response_information }

  abbrev s2 : ConnectProperties
  s2 = record s1 { request_problem_information = p.request_problem_information }

  hand_on :
      (t : Shared.SharedProperties) (q : Property)
      → All (λ f. q.identifier ≢ f.id) (own_fields p)
      → read_property (record s2 { shared = t }) q
        ≡ (Shared.handle_property t q >>= λ t'. ok (record s2 { shared = t' }))
  unfolding read_property
  hand_on t q h = ground arith

  for_each-written :
      for_each read_property (written (fields p) p.shared.base) dflt ≡ ok (received p)
  unfolding read_property stored activate_id as_integral
  for_each-written =
      let foreign = s.struct_sendable.base_sendable.apart.foreign in
      let (own, shared) =
        IsForeign-append (own_fields p) (Shared.fields p.shared) p.shared.base.unknown_properties
          foreign in
      read_bool read_property false 25 p.request_response_information (drop 1 (fields p)) _ dflt s1
        (ground arith) (λ e. rw e)
      ∙ read_bool read_property false 23 p.request_problem_information (Shared.fields p.shared) _ s1
          s2 (ground arith) (λ e. rw e)
      ∙ for_each-embed read_property Shared.handle_property (λ t. record s2 { shared = t })
          (λ q. All (λ f. q.identifier ≢ f.id) (own_fields p)) hand_on
          (written (Shared.fields p.shared) p.shared.base) Shared.dflt
          (SharedTrip.received p.shared)
          (written-apart (own_fields p) (Shared.fields p.shared) p.shared.base (omega arith) own)
          (SharedTrip.for_each-written p.shared s.numbers shared)

  pub serialize-bytes : serialize p ≡ ok (struct_bytes (fields p) p.shared.base)
  unfolding serialize activate_id
  serialize-bytes =
      serialize_struct-bytes (fields p) p.shared.base s.struct_sendable
        (tt, (tt, (tt, (tt, (tt, (tt, (tt, (tt, tt)))))))) (omega arith)

  pub deserialize-bytes :
      (rest : List ℕ)
      → deserialize (struct_bytes (fields p) p.shared.base ++ rest) ≡ ok (received p, rest)
  unfolding deserialize
  deserialize-bytes rest =
      deserialize_struct-bytes (fields p) p.shared.base s.struct_sendable read_property dflt
        (received p) rest for_each-written
