-- ===== src/Properties/Fields/Typed.antt =====
-- When what a struct writes is well typed, so that it can be read back.
use mqtt.Base.{◌%◌, ◌^◌, ◌<◌, ◌≡◌, List, [], ◌∷◌, arith, All, All-append, Bool-cases, inl, inr}
use mqtt.Wire.Text.{KeyValuePair}
use mqtt.Wire.Text.RoundTrip.{IsShort}
use mqtt.Property.{byte, activate_id}
use mqtt.Property.Codec.{Holds, IsWellTyped}
use mqtt.Properties.{BaseProperties}
use mqtt.Properties.Fields.{Field}
use mqtt.Properties.Fields.Out.{stored_value, stored, stored_fields, user}
use mqtt.Properties.Fields.Written.{users, written, IsApart}

-- The identifier is a byte, and the value is one that the wire carries.
abbrev pub FieldsHold : List Field → Type 0
FieldsHold = All (λ f.
    (f.id < 2 ^ 8)
    × Holds (activate_id f.id (byte 0)) (stored_value (activate_id f.id (byte 0)) f.given))

stored-IsWellTyped :
    (f : Field)
    → f.id < 2 ^ 8
    → Holds (activate_id f.id (byte 0)) (stored_value (activate_id f.id (byte 0)) f.given)
    → IsWellTyped (stored f)
unfolding stored
stored-IsWellTyped f hi h =
    let e : f.id % 2 ^ 8 ≡ f.id = omega arith in record { small_id = omega arith; holds = rw e h }

pub stored_fields-IsWellTyped :
    (fs : List Field) → FieldsHold fs → All IsWellTyped (stored_fields fs)
stored_fields-IsWellTyped [] h = tt
stored_fields-IsWellTyped (f ∷ fs) h = elim (Bool-cases f.differs) [
  | inl e ↦ simp e (stored-IsWellTyped f h.0.0 h.0.1, stored_fields-IsWellTyped fs h.1)
  | inr e ↦ simp e (stored_fields-IsWellTyped fs h.1)
]

abbrev pub IsShortPair : KeyValuePair → Type 0
IsShortPair kv = IsShort kv.key × IsShort kv.value

pub users-IsWellTyped :
    (kvs : List KeyValuePair) → All IsShortPair kvs → All IsWellTyped (users kvs)
unfolding user activate_id
users-IsWellTyped [] h = tt
users-IsWellTyped (kv ∷ kvs) h =
    (record { small_id = omega arith; holds = h.0 }, users-IsWellTyped kvs h.1)

-- What the base properties of a struct have to be, beside its fields, to be read back as they are.
pub record IsSendableBase (fs : List Field) (base : BaseProperties) : Type 0 where
  pub apart : IsApart fs base
  pub short_users : All IsShortPair base.user_property
  pub typed_unknown : All IsWellTyped base.unknown_properties

pub written-IsWellTyped :
    (fs : List Field) (base : BaseProperties)
    → FieldsHold fs
    → IsSendableBase fs base
    → All IsWellTyped (written fs base)
written-IsWellTyped fs base h s =
    All-append IsWellTyped (stored_fields fs) _ (stored_fields-IsWellTyped fs h) (
      All-append IsWellTyped (users base.user_property) base.unknown_properties
        (users-IsWellTyped base.user_property s.short_users) s.typed_unknown)
