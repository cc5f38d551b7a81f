-- ===== src/Properties/Fields.antt =====
-- How the `properties_t` structs of the packets use `properties`: a run of `maybe_add` calls, one to
-- a field, on the way out, and a loop over the properties on the way in.
pub mod Out
pub mod Written
pub mod In
pub mod Typed
pub mod Struct
pub mod Total
use mqtt.Base.{
  ℕ, List, [], ◌∷◌, ◌++◌, Bool, Result, ok, err, if◌then◌else◌, ◌>>=◌, not, bytes_eq, ◌==◌,
}
use mqtt.Property.{Property, Given, string, bytes, integral}
use mqtt.Properties.{add_value}

-- A call of `maybe_add`: whether the field differs from its default, its identifier and its value.
pub record Field : Type 0 where
  pub differs : Bool
  pub id : ℕ
  pub given : Given

-- A field of each type, with its identifier. The defaults are an empty string or vector, and zero.
abbrev pub string_field : ℕ → List ℕ → Field
string_field id s = record { differs = not (bytes_eq s []); id = id; given = string s }

abbrev pub bytes_field : ℕ → List ℕ → Field
bytes_field id bs = record { differs = not (bytes_eq bs []); id = id; given = bytes bs }

-- A number with a default of its own.
abbrev pub number_field : ℕ → ℕ → ℕ → Field
number_field default id n = record { differs = not (n == default); id = id; given = integral n }

abbrev pub bool_to_ℕ : Bool → ℕ
bool_to_ℕ b = if b then 1 else 0

-- A `bool` is assigned to a byte.
abbrev pub bool_field : Bool → ℕ → Bool → Field
bool_field default id b = record {
  differs = if default then not b else b;
  id = id;
  given = integral (bool_to_ℕ b);
}

unfoldable pub maybe_add : Field → List Property → Result (List Property)
maybe_add f props = if f.differs then add_value f.id f.given props else ok props

-- The calls in turn.
unfoldable pub add_fields : List Field → List Property → Result (List Property)
add_fields [] props = ok props
add_fields (f ∷ fs) props = do props' ← maybe_add f props; add_fields fs props'

-- `for (auto& prop : props)`, with what the body does to the struct that it fills.
unfoldable pub for_each {ℓ} :
    {P : Type ℓ} → (P → Property → Result P) → List Property → P → Result P
for_each body [] retval = ok retval
for_each body (prop ∷ props) retval = do retval' ← body retval prop; for_each body props retval'
