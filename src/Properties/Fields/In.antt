-- ===== src/Properties/Fields/In.antt =====
-- How a struct is filled from a list of properties, run by run.
use mqtt.Base.{
  ℕ, Bool, if◌then◌else◌, not, bytes_eq, bytes_eq_sound, ◌==◌, ◌≡◌, refl, ap, List, [], ◌∷◌, ◌++◌,
  arith, ok, append_assoc, append-nil, All, true, false, Result, ◌>>=◌, Bool-cases, inl, inr,
  Result-cases, ◌∙◌,
}
use mqtt.Wire.Text.{KeyValuePair}
use mqtt.Property.{Property}
use mqtt.Properties.Fields.{Field, string_field, bytes_field, number_field, bool_field, for_each}
use mqtt.Properties.Fields.Out.{stored, stored_fields, user}
use mqtt.Properties.Fields.Written.{users}

default_bytes : (s : List ℕ) → not (bytes_eq s []) ≡ false → s ≡ []
default_bytes s e = bytes_eq_sound s [] (ground arith)

default_number : (n d : ℕ) → not (n == d) ≡ false → n ≡ d
default_number n d e = ground arith

default_bool : (b d : Bool) → (if d then not b else b) ≡ false → b ≡ d
default_bool true true e = refl
default_bool true false e = cc
default_bool false true e = cc
default_bool false false e = refl

module _ {ℓ} {P : Type ℓ} (body : P → Property → Result P) where
  for_each_step :
      (p : Property) (ps : List Property) (r r' : P)
      → body r p ≡ ok r'
      → for_each body (p ∷ ps) r ≡ for_each body ps r'
  unfolding for_each
  for_each_step p ps r r' e = rw e

  -- One field: its property, where it is written, leads from `r` to `r'`, and where it is not
  -- written they are one.
  pub read_field :
      (f : Field) (fs : List Field) (rest : List Property) (r r' : P)
      → (f.differs ≡ true → body r (stored f) ≡ ok r')
      → (f.differs ≡ false → r ≡ r')
      → for_each body (stored_fields (f ∷ fs) ++ rest) r
        ≡ for_each body (stored_fields fs ++ rest) r'
  unfolding stored
  read_field f fs rest r r' hit skip = elim (Bool-cases f.differs) [
    | inl e ↦ rw e (for_each_step (stored f) (stored_fields fs ++ rest) r r' (hit e))
    | inr e ↦ rw (e, skip e)
  ]

  -- The same at each type of field: one that is not written has its default.
  pub read_string :
      (id : ℕ) (s : List ℕ) (fs : List Field) (rest : List Property) (r r' : P)
      → body r (stored (string_field id s)) ≡ ok r'
      → (s ≡ [] → r ≡ r')
      → for_each body (stored_fields (string_field id s ∷ fs) ++ rest) r
        ≡ for_each body (stored_fields fs ++ rest) r'
  read_string id s fs rest r r' hit skip =
      read_field (string_field id s) fs rest r r' (λ e. hit) (λ e. skip (default_bytes s e))

  pub read_bytes :
      (id : ℕ) (bs : List ℕ) (fs : List Field) (rest : List Property) (r r' : P)
      → body r (stored (bytes_field id bs)) ≡ ok r'
      → (bs ≡ [] → r ≡ r')
      → for_each body (stored_fields (bytes_field id bs ∷ fs) ++ rest) r
        ≡ for_each body (stored_fields fs ++ rest) r'
  read_bytes id bs fs rest r r' hit skip =
      read_field (bytes_field id bs) fs rest r r' (λ e. hit) (λ e. skip (default_bytes bs e))

  pub read_number :
      (default id n : ℕ) (fs : List Field) (rest : List Property) (r r' : P)
      → body r (stored (number_field default id n)) ≡ ok r'
      → (n ≡ default → r ≡ r')
      → for_each body (stored_fields (number_field default id n ∷ fs) ++ rest) r
        ≡ for_each body (stored_fields fs ++ rest) r'
  read_number default id n fs rest r r' hit skip =
      read_field (number_field default id n) fs rest r r' (λ e. hit)
        (λ e. skip (default_number n default e))

  pub read_bool :
      (default : Bool) (id : ℕ) (b : Bool) (fs : List Field) (rest : List Property) (r r' : P)
      → body r (stored (bool_field default id b)) ≡ ok r'
      → (b ≡ default → r ≡ r')
      → for_each body (stored_fields (bool_field default id b ∷ fs) ++ rest) r
        ≡ for_each body (stored_fields fs ++ rest) r'
  read_bool default id b fs rest r r' hit skip =
      read_field (bool_field default id b) fs rest r r' (λ e. hit)
        (λ e. skip (default_bool b default e))

  -- The user properties, read behind those that are there.
  pub read_users :
      (with_users : List KeyValuePair → P) (seen kvs : List KeyValuePair) (rest : List Property)
      → ((us : List KeyValuePair) (kv : KeyValuePair)
          → body (with_users us) (user kv) ≡ ok (with_users (us ++ kv ∷ [])))
      → for_each body (users kvs ++ rest) (with_users seen)
        ≡ for_each body rest (with_users (seen ++ kvs))
  read_users with_users seen [] rest step = rw append-nil
  read_users with_users seen (kv ∷ kvs) rest step =
      for_each_step (user kv) (users kvs ++ rest) _ _ (step seen kv)
      ∙ read_users with_users (seen ++ kv ∷ []) kvs rest step
      ∙ ap (λ us. for_each body rest (with_users us)) (append_assoc seen (kv ∷ []) kvs)

  -- The unknown properties, to the end.
  pub read_unknown {κ} :
      (IsUnknown : Property → Type κ) (with_unknown : List Property → P) (seen ps : List Property)
      → ((us : List Property) (p : Property)
          → IsUnknown p
          → body (with_unknown us) p ≡ ok (with_unknown (us ++ p ∷ [])))
      → All IsUnknown ps
      → for_each body ps (with_unknown seen) ≡ ok (with_unknown (seen ++ ps))
  read_unknown IsUnknown with_unknown seen [] step h = unfold for_each in rw append-nil
  read_unknown IsUnknown with_unknown seen (p ∷ ps) step h =
      for_each_step p ps _ _ (step seen p h.0)
      ∙ read_unknown IsUnknown with_unknown (seen ++ p ∷ []) ps step h.1
      ∙ ap (λ us. ok (with_unknown us)) (append_assoc seen (p ∷ []) ps)

-- A loop whose body hands the properties that satisfy `Q` on to the loop body of a part.
pub for_each-embed {ℓ κ ι} :
    {P : Type ℓ} {S : Type κ} (body : P → Property → Result P) (handle : S → Property → Result S)
    (embed : S → P) (Q : Property → Type ι)
    → ((s : S) (q : Property) → Q q → body (embed s) q ≡ (handle s q >>= λ s'. ok (embed s')))
    → (ps : List Property) (s s' : S) → All Q ps
    → for_each handle ps s ≡ ok s'
    → for_each body ps (embed s) ≡ ok (embed s')
unfolding for_each
for_each-embed body handle embed Q step [] s s' h e = ground arith
for_each-embed body handle embed Q step (q ∷ ps) s s' h e = elim (Result-cases (handle s q)) [
  | inl (s1, e1) ↦
      rw (step s q h.0, e1) (for_each-embed body handle embed Q step ps s1 s' h.1 (rw e1 at e))
  | inr (x, e1) ↦ cc (e1, e)
]
