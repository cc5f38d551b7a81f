-- ===== src/Properties/Fields/Total.antt =====
-- The readers of the `properties_t` structs end on any data.
use mqtt.Base.{
  ℕ, ◌≢◌, List, [], ◌∷◌, Bool, true, false, Result, ok, err, out_of_fuel, ◌>>=◌, if◌then◌else◌,
  arith, length, Result-cases, inl, inr,
}
use mqtt.Wire.FixedInt.{Width}
use mqtt.Wire.Total.{Within, IsTotal}
use mqtt.Property.{Property, Value, as_integral, as_string, as_binary, as_pair}
use mqtt.Properties.{BaseProperties, handle_property}
use mqtt.Properties
use mqtt.Properties.Total.{deserialize-IsTotal}
use mqtt.Properties.Fields.{for_each}
use mqtt.Properties.Fields.Struct.{deserialize_struct}

-- A call that returns or throws: no loop of it lacks a round.
pub record Ends {ℓ} {A : Type ℓ} (r : Result A) : Type ℓ where
  pub ends : r ≢ err out_of_fuel

pub Ends-ok {ℓ} : {A : Type ℓ} (a : A) → Ends (ok a)
Ends-ok a = record { ends = λ h. cc h }

pub Ends-if {ℓ} :
    {A : Type ℓ} (b : Bool) (r s : Result A) → Ends r → Ends s → Ends (if b then r else s)
Ends-if true r s h k = h
Ends-if false r s h k = k

pub Ends-bind {ℓ κ} :
    {A : Type ℓ} {B : Type κ} (r : Result A) (f : A → Result B)
    → Ends r
    → ((a : A) → Ends (f a))
    → Ends (r >>= f)
Ends-bind (ok a) f h k = k a
Ends-bind (err e) f h k = record { ends = λ q. h.ends (cc q) }

pub as_integral-Ends : (w : Width) (v : Value) → Ends (as_integral w v)
unfolding as_integral
as_integral-Ends w v = record { ends = λ h. ground arith }

pub as_string-Ends : (v : Value) → Ends (as_string v)
unfolding as_string
as_string-Ends v = record { ends = λ h. ground arith }

pub as_binary-Ends : (v : Value) → Ends (as_binary v)
unfolding as_binary
as_binary-Ends v = record { ends = λ h. ground arith }

as_pair-Ends : (v : Value) → Ends (as_pair v)
unfolding as_pair
as_pair-Ends v = record { ends = λ h. ground arith }

pub handle_property-Ends : (p : Property) (base : BaseProperties) → Ends (handle_property p base)
unfolding handle_property
handle_property-Ends p base = search (Ends-if, Ends-bind, Ends-ok, as_pair-Ends)

pub ruleset ending = (
  Ends-if, Ends-bind, Ends-ok, as_integral-Ends, as_string-Ends, as_binary-Ends,
  handle_property-Ends,
)

for_each-Ends {ℓ} :
    {P : Type ℓ} (body : P → Property → Result P) (ps : List Property) (p : P)
    → ((q : P) (prop : Property) → Ends (body q prop))
    → Ends (for_each body ps p)
unfolding for_each
for_each-Ends body [] p h = Ends-ok p
for_each-Ends body (prop ∷ ps) p h =
    Ends-bind (body p prop) (for_each body ps) (h p prop) (λ q. for_each-Ends body ps q h)

module _ {ℓ} {P : Type ℓ} (body : P → Property → Result P)
    (body-Ends : (p : P) (prop : Property) → Ends (body p prop)) where
  then_each-Within :
      (n : ℕ) (r : Result (List Property × List ℕ)) (p : P)
      → Within n r
      → Within n (r >>= λ (props, rest). for_each body props p >>= λ retval. ok (retval, rest))
  then_each-Within n (err e) p w = w
  then_each-Within n (ok (props, rest)) p w = elim (Result-cases (for_each body props p)) [
    | inl (q, e) ↦ rw e w
    | inr (x, e) ↦ rw e (λ h. (for_each-Ends body props p body-Ends).ends (rw e (cc h)))
  ]

  pub deserialize_struct-IsTotal : (dflt : P) → IsTotal (deserialize_struct body dflt)
  unfolding deserialize_struct
  deserialize_struct-IsTotal dflt = record {
    at = λ span.
        then_each-Within (length span) (Properties.deserialize span) dflt
          (deserialize-IsTotal.at span);
  }
