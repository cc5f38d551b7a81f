-- ===== src/Properties/Fields/Out.antt =====
-- What the `maybe_add` calls and `add_base_properties` leave in the list, where no two identifiers
-- are one.
use mqtt.Base.{
  ℕ, ◌%◌, ◌^◌, ◌≡◌, ◌≢◌, refl, ap, List, [], ◌∷◌, ◌++◌, arith, ok, append_assoc, append-nil, All,
  All-append, if◌then◌else◌, Bool-cases, inl, inr, sym,
}
use mqtt.Wire.Text.{KeyValuePair}
use mqtt.Property.{
  Value, byte, word, dword, varlen, text, binary, pair, Property, Given, integral, string, bytes,
  key_value, activate_id, assign_value, make_property,
}
use mqtt.Properties.{user_property, replace_or_append, add_property, add_value}
use mqtt.Properties.Fields.{Field, maybe_add, add_fields}

-- The value that a slot holds after an assignment of its own type.
abbrev pub stored_value : Value → Given → Value
stored_value (varlen _) (integral n) = varlen (n % 2 ^ 32)
stored_value (byte _) (integral n) = byte (n % 2 ^ 8)
stored_value (word _) (integral n) = word (n % 2 ^ 16)
stored_value (dword _) (integral n) = dword (n % 2 ^ 32)
stored_value (text _) (string s) = text s
stored_value (binary _) (bytes bs) = binary bs
stored_value (pair _) (key_value kv) = pair kv
stored_value slot _ = slot

abbrev pub Accepts : Value → Given → Type 0
Accepts (varlen _) (integral n) = Unit {0}
Accepts (byte _) (integral n) = Unit {0}
Accepts (word _) (integral n) = Unit {0}
Accepts (dword _) (integral n) = Unit {0}
Accepts (text _) (string s) = Unit {0}
Accepts (binary _) (bytes bs) = Unit {0}
Accepts (pair _) (key_value kv) = Unit {0}
Accepts _ _ = ⊥

pub assign_value-stored_value :
    (slot : Value) (g : Given) → Accepts slot g → assign_value slot g ≡ ok (stored_value slot g)
unfolding assign_value
assign_value-stored_value (varlen _) (integral n) a = refl
assign_value-stored_value (byte _) (integral n) a = refl
assign_value-stored_value (word _) (integral n) a = refl
assign_value-stored_value (dword _) (integral n) a = refl
assign_value-stored_value (text _) (string s) a = refl
assign_value-stored_value (binary _) (bytes bs) a = refl
assign_value-stored_value (pair _) (key_value kv) a = refl
assign_value-stored_value _ _ a = absurd a

unfoldable pub stored : Field → Property
stored f = record { identifier = f.id; value = stored_value (activate_id f.id (byte 0)) f.given }

-- The properties of the fields that differ from their defaults.
abbrev pub stored_fields : List Field → List Property
stored_fields [] = []
stored_fields (f ∷ fs) = if f.differs then stored f ∷ stored_fields fs else stored_fields fs

unfoldable pub user : KeyValuePair → Property
user kv = record { identifier = user_property; value = pair kv }

abbrev pub Avoids : ℕ → List Property → Type 0
Avoids i = All (λ q. q.identifier ≢ i)

pub replace_or_append-fresh :
    (p : Property) (props : List Property)
    → Avoids p.identifier props
    → replace_or_append p props ≡ props ++ p ∷ []
unfolding replace_or_append
replace_or_append-fresh p [] fresh = refl
replace_or_append-fresh p (q ∷ props) fresh =
    ground (arith, replace_or_append-fresh p props fresh.1)

pub add_property-fresh :
    (p : Property) (props : List Property)
    → Avoids p.identifier props
    → add_property p props ≡ props ++ p ∷ []
unfolding add_property
add_property-fresh p props fresh = ground (arith, replace_or_append-fresh p props fresh)

-- Pairwise different identifiers, none of them that of the user properties.
abbrev pub Distinct : List Field → Type 0
Distinct [] = Unit {0}
Distinct (f ∷ fs) = (f.id ≢ user_property) × All (λ g. f.id ≢ g.id) fs × Distinct fs

abbrev pub FieldsAccept : List Field → Type 0
FieldsAccept = All (λ f. Accepts (activate_id f.id (byte 0)) f.given)

abbrev pub FieldsAvoid : List Field → List Property → Type 0
FieldsAvoid fs props = All (λ f. Avoids f.id props) fs

pub FieldsAvoid-snoc :
    (fs : List Field) (props : List Property) (q : Property)
    → FieldsAvoid fs props
    → All (λ f. q.identifier ≢ f.id) fs
    → FieldsAvoid fs (props ++ q ∷ [])
FieldsAvoid-snoc [] props q h k = tt
FieldsAvoid-snoc (f ∷ fs) props q h k = (
  All-append (λ r. r.identifier ≢ f.id) props (q ∷ []) h.0 (k.0, tt),
  FieldsAvoid-snoc fs props q h.1 k.1,
)

pub maybe_add-stored :
    (f : Field) (props : List Property)
    → Accepts (activate_id f.id (byte 0)) f.given
    → Avoids f.id props
    → maybe_add f props ≡ ok (if f.differs then props ++ stored f ∷ [] else props)
unfolding maybe_add add_value make_property stored
maybe_add-stored f props a fresh = ground (
  arith,
  assign_value-stored_value (activate_id f.id (byte 0)) f.given a,
  add_property-fresh (stored f) props fresh,
)

pub add_fields-stored_fields :
    (fs : List Field) (props : List Property)
    → FieldsAccept fs
    → Distinct fs
    → FieldsAvoid fs props
    → add_fields fs props ≡ ok (props ++ stored_fields fs)
unfolding add_fields stored
add_fields-stored_fields [] props a d fresh = ap ok (sym (append-nil props))
add_fields-stored_fields (f ∷ fs) props (a, as') d fresh = elim (Bool-cases f.differs) [
  | inl e ↦ ground (
    arith,
    maybe_add-stored f props a fresh.0,
    append_assoc props (stored f ∷ []) (stored_fields fs),
    add_fields-stored_fields fs (props ++ stored f ∷ []) as' d.2
        (FieldsAvoid-snoc fs props (stored f) fresh.1 d.1),
  )
  | inr e ↦
      ground (
        arith,
        maybe_add-stored f props a fresh.0,
        add_fields-stored_fields fs props as' d.2 fresh.1,
      )
]

pub Avoids-stored_fields :
    (i : ℕ) (fs : List Field) → All (λ f. i ≢ f.id) fs → Avoids i (stored_fields fs)
unfolding stored
Avoids-stored_fields i [] h = tt
Avoids-stored_fields i (f ∷ fs) h = elim (Bool-cases f.differs) [
  | inl e ↦ rw e ((λ p. h.0 (sym p)), Avoids-stored_fields i fs h.1)
  | inr e ↦ rw e (Avoids-stored_fields i fs h.1)
]
