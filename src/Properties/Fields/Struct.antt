-- ===== src/Properties/Fields/Struct.antt =====
-- The `properties_t` structs that write their fields and then the base properties: all but that of
-- PUBLISH.
use mqtt.Base.{ℕ, ◌≤◌, ◌≡◌, List, [], ◌∷◌, ◌++◌, Result, ok, ◌>>=◌, arith, All, length, ◌∙◌}
use mqtt.Wire.Fetcher.{Reader}
use mqtt.Wire.VarlenInt.{max_value}
use mqtt.Wire.VarlenInt.Encode.{groups}
use mqtt.Wire.Text.{KeyValuePair}
use mqtt.Property.{Property}
use mqtt.Properties.{BaseProperties, no_base, add_base_properties}
use mqtt.Properties
use mqtt.Properties.RoundTrip.{encodings, serialize-encodings, deserialize-encodings}
use mqtt.Properties.Fields.{Field, add_fields, for_each}
use mqtt.Properties.Fields.Out.{user, Distinct, FieldsAccept}
use mqtt.Properties.Fields.Written.{users, written, IsForeign, add_fields-written}
use mqtt.Properties.Fields.In.{read_users, read_unknown}
use mqtt.Properties.Fields.Typed.{FieldsHold, IsSendableBase, written-IsWellTyped}

-- `serialize`: the fields that differ, `add_base_properties`, and `props.serialize`.
unfoldable pub serialize_struct : List Field → BaseProperties → Result (List ℕ)
serialize_struct fs base = do
  props ← add_fields fs []
  props' ← add_base_properties base props
  Properties.serialize props'

-- `deserialize`: `props.deserialize`, and the loop over the properties from a struct of defaults.
unfoldable pub deserialize_struct {ℓ} : {P : Type ℓ} → (P → Property → Result P) → P → Reader P
deserialize_struct body dflt span = do
  (props, rest) ← Properties.deserialize span
  retval ← for_each body props dflt
  ok (retval, rest)

abbrev pub struct_bytes : List Field → BaseProperties → List ℕ
struct_bytes fs base =
    groups 3 (length (encodings (written fs base))) ++ encodings (written fs base)

-- A struct that can be written and read back.
pub record IsSendableStruct (fs : List Field) (base : BaseProperties) : Type 0 where
  pub hold : FieldsHold fs
  pub base_sendable : IsSendableBase fs base
  pub fits : length (encodings (written fs base)) ≤ max_value

module _ (fs : List Field) (base : BaseProperties) (s : IsSendableStruct fs base) where
  pub serialize_struct-bytes :
      FieldsAccept fs → Distinct fs → serialize_struct fs base ≡ ok (struct_bytes fs base)
  unfolding serialize_struct
  serialize_struct-bytes accept distinct = ground (
    arith,
    add_fields-written fs base accept distinct s.base_sendable.apart,
    serialize-encodings (written fs base) (written-IsWellTyped fs base s.hold s.base_sendable)
        s.fits,
  )

  pub deserialize_struct-bytes {ℓ} :
      {P : Type ℓ} (body : P → Property → Result P) (dflt p : P) (rest : List ℕ)
      → for_each body (written fs base) dflt ≡ ok p
      → deserialize_struct body dflt (struct_bytes fs base ++ rest) ≡ ok (p, rest)
  unfolding deserialize_struct
  deserialize_struct-bytes body dflt p rest h = rw (
    deserialize-encodings (written fs base) rest
        (written-IsWellTyped fs base s.hold s.base_sendable) s.fits,
    h,
  )

-- The loop over the base properties, where its body hands on to `handle_property` all that it does
-- not know.
pub read_base {ℓ} :
    {P : Type ℓ} (body : P → Property → Result P) (with_base : BaseProperties → P) (fs : List Field)
    (base : BaseProperties)
    → ((b : BaseProperties) (kv : KeyValuePair)
        → body (with_base b) (user kv)
          ≡ ok (with_base (record b { user_property = b.user_property ++ kv ∷ [] })))
    → ((b : BaseProperties) (q : Property)
        → IsForeign fs q
        → body (with_base b) q
          ≡ ok (with_base (record b { unknown_properties = b.unknown_properties ++ q ∷ [] })))
    → All (IsForeign fs) base.unknown_properties
    → for_each body (users base.user_property ++ base.unknown_properties) (with_base no_base)
      ≡ ok (with_base base)
read_base body with_base fs base on_user on_foreign foreign =
    read_users body (λ us. with_base (record { user_property = us; unknown_properties = [] })) []
      base.user_property base.unknown_properties (λ us kv. on_user _ kv)
    ∙ read_unknown body (IsForeign fs)
        (λ us. with_base (record { user_property = base.user_property; unknown_properties = us }))
        [] base.unknown_properties (λ us q h. on_foreign _ q h) foreign
