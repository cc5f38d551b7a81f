-- ===== src/Properties/Total.antt =====
-- `properties::deserialize` ends on any data.
use mqtt.Base.{
  ℕ, zero, suc, ◌+◌, ◌-◌, ◌≤◌, ◌<◌, ◌≡◌, ◌≢◌, refl, ap, List, [], ◌∷◌, arith, length, Result, ok,
  err, out_of_fuel, inl, inr, Result-cases, length-drop,
}
use mqtt.Base
use mqtt.Wire.Fetcher.{cspan, consume, consume-drop}
use mqtt.Wire.VarlenInt
use mqtt.Wire.Total.{
  Within, Within-bind, IsTotal, IsTotal-bind, IsTotal-pure, fixed_int-IsTotal, string-IsTotal,
  binary-IsTotal, pair-IsTotal, varlen_int-IsTotal, varlen_int_shrinks,
}
use mqtt.Property.{Value, byte, word, dword, varlen, text, binary, pair, Property, read_value}
use mqtt.Property
use mqtt.Properties.{deserialize_loop, deserialize}

read_value-IsTotal : (slot : Value) → IsTotal (read_value slot)
unfolding read_value
read_value-IsTotal (byte _) = IsTotal-bind _ _ (fixed_int-IsTotal _) (λ v. IsTotal-pure _)
read_value-IsTotal (word _) = IsTotal-bind _ _ (fixed_int-IsTotal _) (λ v. IsTotal-pure _)
read_value-IsTotal (dword _) = IsTotal-bind _ _ (fixed_int-IsTotal _) (λ v. IsTotal-pure _)
read_value-IsTotal (varlen _) = IsTotal-bind _ _ varlen_int-IsTotal (λ v. IsTotal-pure _)
read_value-IsTotal (text _) = IsTotal-bind _ _ string-IsTotal (λ v. IsTotal-pure _)
read_value-IsTotal (binary _) = IsTotal-bind _ _ binary-IsTotal (λ v. IsTotal-pure _)
read_value-IsTotal (pair _) = IsTotal-bind _ _ pair-IsTotal (λ v. IsTotal-pure _)

-- A property takes a byte at least.
property_shrinks : (span : List ℕ) → Within (length span - 1) (Property.deserialize span)
unfolding Property.deserialize
property_shrinks span =
    Within-bind (length span - 1) (VarlenInt.deserialize span) _ (varlen_int_shrinks span)
      (λ id. IsTotal-bind _ _ (read_value-IsTotal _) (λ v. IsTotal-pure _))

deserialize_loop_ends :
    (fuel : ℕ) (span : List ℕ) → length span ≤ fuel → deserialize_loop fuel span ≢ err out_of_fuel
unfolding deserialize_loop
deserialize_loop_ends fuel [] h = λ e. cc
deserialize_loop_ends zero (b ∷ bs) h = absurd (omega arith)
deserialize_loop_ends (suc fuel) (b ∷ bs) h = elim (Result-cases (Property.deserialize (b ∷ bs))) [
  | inl ((p, rest), e) ↦
      let shorter : length rest ≤ suc (length bs) - 1 = rw e at (property_shrinks (b ∷ bs)) in
      λ stuck. ground (arith, e, deserialize_loop_ends fuel rest)
  | inr (x, e) ↦ λ stuck. ground (arith, (rw e at (property_shrinks (b ∷ bs))))
]

deserialize_loop_after :
    (n : ℕ) (r : Result (List Property)) (rest : List ℕ)
    → r ≢ err out_of_fuel
    → length rest ≤ n
    → Within n (Base.◌>>=◌ r (λ props. ok (props, rest)))
deserialize_loop_after n (ok props) rest h le = le
deserialize_loop_after n (err e) rest h le = λ stuck. h (ap err stuck)

pub deserialize-IsTotal : IsTotal deserialize
unfolding deserialize
deserialize-IsTotal = record {
  at = λ span.
      Within-bind (length span) (VarlenInt.deserialize span) _ (varlen_int-IsTotal.at span)
        (λ n. record { at = λ rest. after n rest });
}
  where
    after :
        (n : ℕ) (rest : List ℕ)
        → Within (length rest) (
            Base.◌>>=◌ (cspan n rest) (λ span.
              Base.◌>>=◌
                (deserialize_loop (length span) span)
                (λ props. ok (props, consume n rest))))
    after n rest = elim (Result-cases (cspan n rest)) [
      | inl (span, e) ↦ rw e (
          deserialize_loop_after (length rest) (deserialize_loop (length span) span)
            (consume n rest) (deserialize_loop_ends (length span) span (omega arith))
            (omega (arith, ap length (consume-drop n rest), length-drop n rest)))
      | inr (x, e) ↦ rw e (unfold cspan in ground arith)
    ]
