-- ===== src/Packet/Reason/RoundTrip.antt =====
-- The properties with a reason string are read back as they were.
use mqtt.Base.{ℕ, ◌≡◌, refl, List, [], ◌++◌, ok, arith, ◌∙◌}
use mqtt.Property.{activate_id, as_string, as_pair}
use mqtt.Properties.{handle_property}
use mqtt.Properties.Fields.{for_each}
use mqtt.Properties.Fields.Out.{stored, user}
use mqtt.Properties.Fields.Written.{written}
use mqtt.Properties.Fields.In.{read_string}
use mqtt.Properties.Fields.Struct.{
  IsSendableStruct, struct_bytes, serialize_struct-bytes, deserialize_struct-bytes, read_base,
}
use mqtt.Packet.Reason.{ReasonProperties, dflt, read_property, fields, serialize, deserialize}

abbrev pub IsSendable : ReasonProperties → Type 0
IsSendable p = IsSendableStruct (fields p) p.base

module _ (p : ReasonProperties) (s : IsSendable p) where
  for_each-written : for_each read_property (written (fields p) p.base) dflt ≡ ok p
  unfolding read_property stored activate_id as_string user handle_property as_pair
  for_each-written =
      read_string read_property 31 p.reason_string [] _ dflt
        (record dflt { reason_string = p.reason_string }) refl (λ e. rw e)
      ∙ read_base read_property (λ b. record { base = b; reason_string = p.reason_string })
          (fields p) p.base (λ b kv. refl) (λ b q h. ground arith) s.base_sendable.apart.foreign

  pub serialize-bytes : serialize p ≡ ok (struct_bytes (fields p) p.base)
  unfolding serialize activate_id
  serialize-bytes = serialize_struct-bytes (fields p) p.base s (tt, tt) (omega arith)

  pub deserialize-bytes :
      (rest : List ℕ) → deserialize (struct_bytes (fields p) p.base ++ rest) ≡ ok (p, rest)
  unfolding deserialize
  deserialize-bytes rest =
      deserialize_struct-bytes (fields p) p.base s read_property dflt p rest for_each-written
