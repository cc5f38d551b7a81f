-- ===== src/Wire/VarlenInt/Bounds.antt =====
-- How `varlen_int::deserialize` ends on any bytes.
use mqtt.Base.{
  ℕ, zero, suc, ◌+◌, ◌*◌, ◌≤◌, ◌<◌, ◌≡◌, ◌≢◌, ◌⊎◌, inl, inr, refl, List, [], ◌∷◌, arith, length,
  All, ok, err, true, false, drop, data_overflow, not_enough_data, ◌%◌, ◌^◌, bit_and,
}
use mqtt.Base
use mqtt.Base.Bits.{bit_and-127}
use mqtt.Wire.FixedInt.{IsByte}
use mqtt.Wire.Fetcher.{consume-drop}
use mqtt.Wire.VarlenInt.{deserialize_loop, deserialize, can_deserialize, max_value}

bound_5 :
    (v u v' u' : ℕ) (span : List ℕ)
    → deserialize_loop (128 * 128 * 128 * 128) v u span ≢ ok (v', u')
unfolding deserialize_loop
bound_5 v u v' u' [] = λ e. cc
bound_5 v u v' u' (b ∷ bs) = λ e. cc

bound_4 :
    (v u v' u' : ℕ) (span : List ℕ)
    → All IsByte span
    → v < 128 * 128 * 128
    → deserialize_loop (128 * 128 * 128) v u span ≡ ok (v', u')
    → (v' ≤ max_value) × (u' ≡ u + 1)
unfolding deserialize_loop
bound_4 v u v' u' [] hb hv e = cc
bound_4 v u v' u' (b ∷ bs) hb hv e = ground (
  arith,
  bit_and-127 b hb.0,
  bound_5 ((v + bit_and b 127 * (128 * 128 * 128) % 2 ^ 32) % 2 ^ 32) (u + 1) v' u' bs,
)

bound_3 :
    (v u v' u' : ℕ) (span : List ℕ)
    → All IsByte span
    → v < 128 * 128
    → deserialize_loop (128 * 128) v u span ≡ ok (v', u')
    → (v' ≤ max_value) × (u < u') × (u' ≤ u + 2)
unfolding deserialize_loop
bound_3 v u v' u' [] hb hv e = cc
bound_3 v u v' u' (b ∷ bs) hb hv e = ground (
  arith,
  bit_and-127 b hb.0,
  bound_4 ((v + bit_and b 127 * (128 * 128) % 2 ^ 32) % 2 ^ 32) (u + 1) v' u' bs hb.1,
)

bound_2 :
    (v u v' u' : ℕ) (span : List ℕ)
    → All IsByte span
    → v < 128
    → deserialize_loop 128 v u span ≡ ok (v', u')
    → (v' ≤ max_value) × (u < u') × (u' ≤ u + 3)
unfolding deserialize_loop
bound_2 v u v' u' [] hb hv e = cc
bound_2 v u v' u' (b ∷ bs) hb hv e = ground (
  arith,
  bit_and-127 b hb.0,
  bound_3 ((v + bit_and b 127 * 128 % 2 ^ 32) % 2 ^ 32) (u + 1) v' u' bs hb.1,
)

bound_1 :
    (v' u' : ℕ) (span : List ℕ)
    → All IsByte span
    → deserialize_loop 1 0 0 span ≡ ok (v', u')
    → (v' ≤ max_value) × (0 < u') × (u' ≤ 4)
unfolding deserialize_loop
bound_1 v' u' [] hb e = cc
bound_1 v' u' (b ∷ bs) hb e = ground (
  arith,
  bit_and-127 b hb.0,
  bound_2 ((0 + bit_and b 127 * 1 % 2 ^ 32) % 2 ^ 32) (0 + 1) v' u' bs hb.1,
)

-- A successful read of a variable-length integer from bytes gives at most 268435455 and takes 1
-- to 4 bytes off the front.
pub deserialize_bounds :
    (span rest : List ℕ) (v : ℕ)
    → All IsByte span
    → deserialize span ≡ ok (v, rest)
    → (v ≤ max_value) × ((used : ℕ) × (0 < used) × (used ≤ 4) × (rest ≡ drop used span))
unfolding deserialize
deserialize_bounds span rest v hb e = elim (Base.Result-cases (deserialize_loop 1 0 0 span)) [
  | inl ((v', used), h) ↦
      let b : (v' ≤ max_value) × (0 < used) × (used ≤ 4) = bound_1 v' used span hb h in
      (ground arith, (used, ground arith, ground arith, ground (arith, consume-drop used span)))
  | inr (x, h) ↦ cc
]

can_deserialize_decides :
    (b : ℕ) (bs : List ℕ)
    → let span = b ∷ bs in
      (can_deserialize span ≡ true
        → ((p : ℕ × List ℕ) × (deserialize span ≡ ok p))
          ⊎ ((deserialize span ≡ err data_overflow)
              ⊎ ((deserialize span ≡ err not_enough_data) × (length span ≡ 4))))
      × (can_deserialize span ≡ false → deserialize span ≡ err not_enough_data)
unfolding can_deserialize deserialize deserialize_loop
can_deserialize_decides a [] = ground arith
can_deserialize_decides a (b ∷ []) = ground arith
can_deserialize_decides a (b ∷ c ∷ []) = ground arith
can_deserialize_decides a (b ∷ c ∷ d ∷ []) = ground arith
can_deserialize_decides a (b ∷ c ∷ d ∷ e ∷ bs) = ground arith

-- Where can_deserialize answers yes, a read gives a value or an overflow, or finds too few bytes
-- among exactly four.
pub can_deserialize_yes :
    (b : ℕ) (bs : List ℕ)
    → can_deserialize (b ∷ bs) ≡ true
    → ((p : ℕ × List ℕ) × (deserialize (b ∷ bs) ≡ ok p))
      ⊎ ((deserialize (b ∷ bs) ≡ err data_overflow)
          ⊎ ((deserialize (b ∷ bs) ≡ err not_enough_data) × (length bs ≡ 3)))
can_deserialize_yes b bs e = elim ((can_deserialize_decides b bs).0 e) [
  | inl r ↦ inl r
  | inr (inl r) ↦ inr (inl r)
  | inr (inr (r, n)) ↦ inr (inr (r, omega arith))
]

-- Where it answers no, a read finds too few bytes.
pub can_deserialize_no :
    (b : ℕ) (bs : List ℕ)
    → can_deserialize (b ∷ bs) ≡ false
    → deserialize (b ∷ bs) ≡ err not_enough_data
can_deserialize_no b bs = (can_deserialize_decides b bs).1
