-- ===== src/Wire/VarlenInt/Encode.antt =====
-- What `varlen_int::serialize` writes.
use mqtt.Base.{
  ℕ, zero, suc, ◌+◌, ◌/◌, ◌%◌, ◌^◌, ◌≤◌, ◌<◌, ◌≡◌, List, [], ◌∷◌, arith, ltb, if◌then◌else◌, length,
  All, ok,
}
use mqtt.Base.Bits.{bit_or-128}
use mqtt.Wire.FixedInt.{IsByte}
use mqtt.Wire.VarlenInt.{serialize_loop, serialize, max_value}

-- The groups of `v`, lowest first, in plain arithmetic.
unfoldable pub groups : ℕ → ℕ → List ℕ
groups zero v = v ∷ []
groups (suc k) v =
    let rest = groups k (v / 128) in if ltb v 128 then v ∷ [] else (v % 128 + 128) ∷ rest

serialize_loop-groups : (k v : ℕ) → v < 128 ^ suc k → serialize_loop (suc k) v ≡ groups k v
unfolding serialize_loop groups
serialize_loop-groups zero v h = ground arith
serialize_loop-groups (suc k) v h =
    ground
      (arith, bit_or-128 (v % 128) (omega arith), serialize_loop-groups k (v / 128) (omega arith))

pub serialize-groups : (v : ℕ) → v ≤ max_value → serialize v ≡ ok (groups 3 v)
unfolding serialize
serialize-groups v h = ground (arith, serialize_loop-groups 3 v (omega arith))

pub groups-IsByte : (k v : ℕ) → v < 128 ^ suc k → All IsByte (groups k v)
unfolding groups
groups-IsByte zero v h = omega arith
groups-IsByte (suc k) v h = ground (arith, groups-IsByte k (v / 128) (omega arith))

-- A number below 128 ^ j takes at most j bytes, and one byte at least.
pub length-groups : (k v : ℕ) → (1 ≤ length (groups k v)) × (length (groups k v) ≤ suc k)
unfolding groups
length-groups zero v = omega arith
length-groups (suc k) v = ground (arith, length-groups k (v / 128))
