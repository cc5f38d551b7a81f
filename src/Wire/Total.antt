-- ===== src/Wire/Total.antt =====
-- Every read of the wire types ends, and gives back no more data than it was given.
use mqtt.Base.{
  ℕ, suc, ◌+◌, ◌-◌, ap, ◌*◌, ◌%◌, ◌^◌, ◌≤◌, ◌<◌, ◌≡◌, ◌≢◌, refl, List, [], ◌∷◌, arith, length,
  Result, ok, err, out_of_fuel, bit_and, length-drop, inl, inr, Result-cases,
}
use mqtt.Base
use mqtt.Wire.Fetcher.{Reader, ◌>>=◌, pure, cspan, consume-drop, read_span}
use mqtt.Wire.FixedInt.{Width}
use mqtt.Wire.FixedInt
use mqtt.Wire.VarlenInt
use mqtt.Wire.Text.{deserialize_string, take_binary, deserialize_binary, deserialize_pair}

-- The result is data no longer than `n`, or an exception of the code.
abbrev pub Within {ℓ} : {A : Type ℓ} → ℕ → Result (A × List ℕ) → Type 0
Within n (ok (a, rest)) = length rest ≤ n
Within n (err e) = e ≢ out_of_fuel

pub record IsTotal {ℓ} {A : Type ℓ} (p : Reader A) : Type ℓ where
  pub at : (span : List ℕ) → Within (length span) (p span)

module _ {ℓ} {A : Type ℓ} where
  pub Within-mono : (m n : ℕ) (r : Result (A × List ℕ)) → m ≤ n → Within m r → Within n r
  Within-mono m n (ok (a, rest)) h w = omega arith
  Within-mono m n (err e) h w = w

  pub IsTotal-pure : (a : A) → IsTotal (pure a)
  IsTotal-pure a = record { at = λ span. omega arith }

module _ {ℓ} {A B : Type ℓ} where
  pub Within-bind :
      (n : ℕ) (r : Result (A × List ℕ)) (f : A → Reader B)
      → Within n r
      → ((a : A) → IsTotal (f a))
      → Within n (Base.◌>>=◌ r (λ (a, rest). f a rest))
  Within-bind n (ok (a, rest)) f w t = Within-mono (length rest) n (f a rest) w ((t a).at rest)
  Within-bind n (err e) f w t = w

  pub IsTotal-bind :
      (p : Reader A) (f : A → Reader B) → IsTotal p → ((a : A) → IsTotal (f a)) → IsTotal (p >>= f)
  IsTotal-bind p f tp tf = record {
    at = λ span. Within-bind (length span) (p span) f (tp.at span) tf;
  }

read_span-IsTotal : (sz : ℕ) → IsTotal (read_span sz)
unfolding read_span cspan
read_span-IsTotal sz = record { at = λ span. go span }
  where
    go : (span : List ℕ) → Within (length span) (read_span sz span)
    go span = ground (arith, consume-drop sz span, length-drop sz span)

pub fixed_int-IsTotal : (w : Width) → IsTotal (FixedInt.deserialize w)
unfolding FixedInt.deserialize
fixed_int-IsTotal w = IsTotal-bind (read_span _) _ (read_span-IsTotal _) (λ bytes. IsTotal-pure _)

take_binary-IsTotal : (n : ℕ) → IsTotal (take_binary n)
unfolding take_binary
take_binary-IsTotal n = record { at = λ span. go span }
  where
    go : (span : List ℕ) → Within (length span) (take_binary n span)
    go span = ground (arith, consume-drop n span, length-drop n span)

pub string-IsTotal : IsTotal deserialize_string
unfolding deserialize_string
string-IsTotal =
    IsTotal-bind (FixedInt.deserialize FixedInt.u16) _ (fixed_int-IsTotal _)
      (λ n. read_span-IsTotal n)

pub binary-IsTotal : IsTotal deserialize_binary
unfolding deserialize_binary
binary-IsTotal =
    IsTotal-bind (FixedInt.deserialize FixedInt.u16) _ (fixed_int-IsTotal _)
      (λ n. take_binary-IsTotal n)

pub pair-IsTotal : IsTotal deserialize_pair
unfolding deserialize_pair
pair-IsTotal =
    IsTotal-bind deserialize_string _ string-IsTotal
      (λ k. IsTotal-bind deserialize_string _ string-IsTotal (λ v. IsTotal-pure _))

-- The loop of `varlen_int::deserialize` counts each byte that it reads.
varlen_loop_counts :
    (m v u : ℕ) (span : List ℕ) (v' u' : ℕ)
    → VarlenInt.deserialize_loop m v u span ≡ ok (v', u')
    → u < u'
unfolding VarlenInt.deserialize_loop
varlen_loop_counts m v u [] v' u' e = cc
varlen_loop_counts m v u (b ∷ bs) v' u' e = ground (
  arith,
  varlen_loop_counts (m * 128 % 2 ^ 32) ((v + bit_and b 127 * m % 2 ^ 32) % 2 ^ 32) (u + 1) bs v'
      u',
)

varlen_loop_fails :
    (m v u : ℕ) (span : List ℕ) → VarlenInt.deserialize_loop m v u span ≢ err out_of_fuel
unfolding VarlenInt.deserialize_loop
varlen_loop_fails m v u [] = λ e. cc
varlen_loop_fails m v u (b ∷ bs) = λ e. ground (
  arith,
  varlen_loop_fails (m * 128 % 2 ^ 32) ((v + bit_and b 127 * m % 2 ^ 32) % 2 ^ 32) (u + 1) bs,
)

-- It takes a byte at least.
pub varlen_int_shrinks : (span : List ℕ) → Within (length span - 1) (VarlenInt.deserialize span)
unfolding VarlenInt.deserialize
varlen_int_shrinks span = elim (Result-cases (VarlenInt.deserialize_loop 1 0 0 span)) [
  | inl ((v, used), h) ↦ rw h (
      omega (
        arith,
        length-drop used span,
        varlen_loop_counts 1 0 0 span v used h,
        ap length (consume-drop used span),
      ))
  | inr (e, h) ↦ rw h (λ stuck. varlen_loop_fails 1 0 0 span (cc))
]

pub varlen_int-IsTotal : IsTotal VarlenInt.deserialize
varlen_int-IsTotal = record {
  at = λ span. Within-mono _ _ _ (omega arith) (varlen_int_shrinks span);
}

-- A length takes two bytes.
u16_shrinks : (span : List ℕ) → Within (length span - 1) (FixedInt.deserialize FixedInt.u16 span)
unfolding FixedInt.deserialize read_span cspan
u16_shrinks span = ground (arith, consume-drop 2 span, length-drop 2 span)

-- So a string takes a byte at least.
pub string_shrinks : (span : List ℕ) → Within (length span - 1) (deserialize_string span)
unfolding deserialize_string
string_shrinks span =
    Within-bind (length span - 1) (FixedInt.deserialize FixedInt.u16 span) _ (u16_shrinks span)
      (λ n. read_span-IsTotal n)
