-- ===== src/Wire/VarlenInt/Prefix.antt =====
-- `can_deserialize` on data that arrive piece by piece: it waits for the whole of an encoding.
use mqtt.Base.{
  ℕ, zero, suc, ◌+◌, ◌/◌, ◌%◌, ◌^◌, ◌<◌, ◌≤◌, ◌≡◌, List, [], ◌∷◌, ◌++◌, arith, ltb, length, true,
  Bool-cases, inl, inr,
}
use mqtt.Base.Bits.{bit_and-128}
use mqtt.Wire.VarlenInt.{any_ends, can_deserialize, max_value}
use mqtt.Wire.VarlenInt.Encode.{groups, length-groups}

any_ends-groups : (k v : ℕ) (rest : List ℕ) → v < 128 ^ suc k → any_ends (groups k v ++ rest) ≡ true
unfolding any_ends groups
any_ends-groups zero v rest h = ground (arith, bit_and-128 v (omega arith))
any_ends-groups (suc k) v rest h = ground (
  arith,
  bit_and-128 v,
  bit_and-128 (v % 128 + 128) (omega arith),
  any_ends-groups k (v / 128) rest (omega arith),
)

groups_all_there :
    (k v : ℕ) (b t rest : List ℕ)
    → v < 128 ^ suc k
    → b ++ t ≡ groups k v ++ rest
    → any_ends b ≡ true
    → length (groups k v) ≤ length b
unfolding any_ends groups
groups_all_there k v [] t rest h e a = cc a
groups_all_there zero v (x ∷ xs) t rest h e a = omega arith
groups_all_there (suc k) v (x ∷ xs) t rest h e a = elim (Bool-cases (ltb v 128)) [
  | inl lt ↦ simp lt (omega arith)
  | inr ge ↦
      let e1 : x ∷ xs ++ t ≡ (v % 128 + 128) ∷ (groups k (v / 128) ++ rest) = rw ge at e in
      let ex : x ≡ v % 128 + 128 = cc e1 in
      let exs : xs ++ t ≡ groups k (v / 128) ++ rest = cc e1 in
      let a1 : any_ends xs ≡ true =
        ground (arith, ex, bit_and-128 (v % 128 + 128) (omega arith), a) in
      simp ge (omega (arith, groups_all_there k (v / 128) xs t rest (omega arith) exs a1))
]

-- Of data that begin with an encoding, some first bytes can be deserialized as soon as they hold the
-- whole encoding, and no sooner.
pub can_deserialize-groups :
    (v : ℕ) (rest : List ℕ) → v ≤ max_value → can_deserialize (groups 3 v ++ rest) ≡ true
unfolding can_deserialize
can_deserialize-groups v rest h = ground (arith, any_ends-groups 3 v rest (omega arith))

pub can_deserialize_whole :
    (v : ℕ) (b t rest : List ℕ)
    → v ≤ max_value
    → b ++ t ≡ groups 3 v ++ rest
    → can_deserialize b ≡ true
    → length (groups 3 v) ≤ length b
unfolding can_deserialize
can_deserialize_whole v b t rest h e a =
    ground (arith, length-groups 3 v, groups_all_there 3 v b t rest (omega arith) e)
