-- ===== src/Packet/Publish/Properties/Writing.antt =====
-- What `publish::properties_t::serialize` puts into the list of properties.
use mqtt.Base.{
  ◌≡◌, ◌≢◌, ap, List, [], ◌++◌, arith, ok, err, mismatched_set, append_assoc, All, drop, take,
}
use mqtt.Property.{Property, activate_id, assign_value, make_property}
use mqtt.Properties.{add_value, add_base_properties}
use mqtt.Properties.Fields.{Field, add_fields, maybe_add}
use mqtt.Properties.Fields.Out.{add_fields-stored_fields, stored_fields}
use mqtt.Properties.Fields.Written.{
  users, add_user_properties-users, add_all-fresh, IsForeign, FieldsAvoid-users,
  FieldsAvoid-stored_fields, AllAvoid, AllAvoid-append, AllAvoid-fields, AllAvoid-users, IsApart,
  IsForeign-append,
}
use mqtt.Packet.Publish.Properties.{
  PublishProperties, to_properties, serialize, first_fields, last_fields,
}

module _ (p : PublishProperties) where
  first_fields-stored : add_fields (first_fields p) [] ≡ ok (stored_fields (first_fields p))
  unfolding activate_id
  first_fields-stored =
      add_fields-stored_fields (first_fields p) [] (tt, (tt, (tt, tt))) (omega arith)
        (tt, (tt, (tt, tt)))

  -- A subscription identifier is a number, and the value that `activate_id` makes active for it is a
  -- vector: no packet with one can be written.
  pub serialize_subscription_identifier :
      p.subscription_identifier ≢ 0 → serialize p ≡ err mismatched_set
  unfolding serialize to_properties add_fields maybe_add add_value make_property activate_id
      assign_value
  serialize_subscription_identifier h = ground (
    arith,
    first_fields-stored,
    add_user_properties-users p.base.user_property (stored_fields (first_fields p)),
  )

  -- The fields behind the user properties, where there is no subscription identifier.
  abbrev pub other_fields : List Field
  other_fields = drop 1 (last_fields p)

  abbrev pub all_fields : List Field
  all_fields = first_fields p ++ other_fields

  -- The list, with the user properties in it twice.
  abbrev pub listed : List Property
  listed =
      stored_fields (first_fields p)
      ++ (users p.base.user_property
          ++ (stored_fields other_fields
              ++ (users p.base.user_property ++ p.base.unknown_properties)))

  -- `add_fields` skips the subscription identifier and adds the others.
  last_fields-stored :
      p.subscription_identifier ≡ 0
      → add_fields (last_fields p) (stored_fields (first_fields p) ++ users p.base.user_property)
        ≡ ok (
            (stored_fields (first_fields p) ++ users p.base.user_property)
            ++ stored_fields other_fields)
  unfolding activate_id add_fields maybe_add
  last_fields-stored h = rw h (
      add_fields-stored_fields other_fields
        (stored_fields (first_fields p) ++ users p.base.user_property) (tt, (tt, (tt, tt)))
        (omega arith)
        (FieldsAvoid-users other_fields (stored_fields (first_fields p)) p.base.user_property
          (omega arith) (FieldsAvoid-stored_fields other_fields (first_fields p) (omega arith))))

  AllAvoid-listed :
      All (IsForeign (first_fields p ++ last_fields p)) p.base.unknown_properties
      → AllAvoid p.base.unknown_properties (
          ((stored_fields (first_fields p) ++ users p.base.user_property)
            ++ stored_fields other_fields)
          ++ users p.base.user_property)
  AllAvoid-listed h =
      let us = p.base.user_property in
      let ps = p.base.unknown_properties in
      let (first, last) = IsForeign-append (first_fields p) (last_fields p) ps h in
      let (_, other) = IsForeign-append (take 1 (last_fields p)) other_fields ps last in
      AllAvoid-append ps _ _
        (AllAvoid-append ps _ _
          (AllAvoid-append ps _ _ (AllAvoid-fields (first_fields p) ps first)
            (AllAvoid-users (first_fields p) us ps first))
          (AllAvoid-fields other_fields ps other))
        (AllAvoid-users (first_fields p) us ps first)

  -- With no subscription identifier, and unknown properties apart from each other and from the known
  -- ones, this is the list that is written.
  pub to_properties-listed :
      p.subscription_identifier ≡ 0
      → IsApart (first_fields p ++ last_fields p) p.base
      → to_properties p ≡ ok listed
  unfolding to_properties add_base_properties
  to_properties-listed h apart =
      let us = users p.base.user_property in
      let first = stored_fields (first_fields p) in
      let other = stored_fields other_fields in
      rw
        (
          first_fields-stored,
          add_user_properties-users p.base.user_property first,
          last_fields-stored h,
          add_user_properties-users p.base.user_property ((first ++ us) ++ other),
          add_all-fresh p.base.unknown_properties (((first ++ us) ++ other) ++ us) apart.distinct
              (AllAvoid-listed apart.foreign),
        )
        (ap ok (simp append_assoc))
