-- ===== src/Wire/VarlenInt/Decode.antt =====
-- What `varlen_int::deserialize` reads.
use mqtt.Base.{
  ℕ, zero, suc, ◌+◌, ◌*◌, ◌/◌, ◌%◌, ◌^◌, ◌≤◌, ◌<◌, ◌≡◌, refl, List, ◌∷◌, ◌++◌, arith, length, ok,
  ◌>>=◌, false, is_empty, drop-append, drop-length,
}
use mqtt.Base.Bits.{bit_and-127, bit_and-128}
use mqtt.Wire.Fetcher.{consume-drop}
use mqtt.Wire.VarlenInt.{deserialize_loop, deserialize, serialize, max_value}
use mqtt.Wire.VarlenInt.Encode.{groups, serialize-groups}

-- One round on a last byte, and on a byte with the top bit set over the group `g`.
last_round :
    (b m v u : ℕ) (rest : List ℕ)
    → b < 128
    → m ≤ 128 * 128 * 128
    → v + b * m < 2 ^ 32
    → deserialize_loop m v u (b ∷ rest) ≡ ok (v + b * m, u + 1)
unfolding deserialize_loop
last_round b m v u rest hb hm hv =
    ground (arith, bit_and-127 b (omega arith), bit_and-128 b (omega arith))

inner_round :
    (g m v u : ℕ) (rest : List ℕ)
    → g < 128
    → m ≤ 128 * 128 * 128
    → v + g * m < 2 ^ 32
    → is_empty rest ≡ false
    → deserialize_loop m v u ((g + 128) ∷ rest)
      ≡ deserialize_loop (m * 128) (v + g * m) (u + 1) rest
unfolding deserialize_loop
inner_round g m v u rest hg hm hv more =
    ground (arith, bit_and-127 (g + 128) (omega arith), bit_and-128 (g + 128) (omega arith))

groups-ne-empty : (k w : ℕ) (rest : List ℕ) → is_empty (groups k w ++ rest) ≡ false
unfolding groups
groups-ne-empty zero w rest = refl
groups-ne-empty (suc k) w rest = ground arith

-- A round over the low group of `w`, where the rest of the rounds is known.
group_round :
    (k w m v u : ℕ) (rest : List ℕ)
    → m ≤ 128 * 128 * 128
    → v + w * m < 2 ^ 32
    → v + w % 128 * m < 2 ^ 32
    → deserialize_loop (m * 128) (v + w % 128 * m) (u + 1) (groups k (w / 128) ++ rest)
      ≡ ok (v + w * m, u + 1 + length (groups k (w / 128)))
    → deserialize_loop m v u (groups (suc k) w ++ rest)
      ≡ ok (v + w * m, u + length (groups (suc k) w))
unfolding groups
group_round k w m v u rest hm hv hg more = ground (
  arith,
  last_round w m v u rest,
  inner_round (w % 128) m v u (groups k (w / 128) ++ rest),
  groups-ne-empty k (w / 128) rest,
)

round_4 :
    (w v u : ℕ) (rest : List ℕ)
    → w < 128
    → v < 128 * 128 * 128
    → deserialize_loop (1 * 128 * 128 * 128) v u (groups 0 w ++ rest)
      ≡ ok (v + w * (1 * 128 * 128 * 128), u + length (groups 0 w))
unfolding groups
round_4 w v u rest hw hv =
    last_round w (1 * 128 * 128 * 128) v u rest hw (omega arith) (omega arith)

round_3 :
    (w v u : ℕ) (rest : List ℕ)
    → w < 128 * 128
    → v < 128 * 128
    → deserialize_loop (1 * 128 * 128) v u (groups 1 w ++ rest)
      ≡ ok (v + w * (1 * 128 * 128), u + length (groups 1 w))
round_3 w v u rest hw hv =
    group_round 0 w (1 * 128 * 128) v u rest (omega arith) (omega arith) (omega arith)
      (ground (arith, round_4 (w / 128) (v + w % 128 * (1 * 128 * 128)) (u + 1) rest))

round_2 :
    (w v u : ℕ) (rest : List ℕ)
    → w < 128 * 128 * 128
    → v < 128
    → deserialize_loop (1 * 128) v u (groups 2 w ++ rest)
      ≡ ok (v + w * (1 * 128), u + length (groups 2 w))
round_2 w v u rest hw hv =
    group_round 1 w (1 * 128) v u rest (omega arith) (omega arith) (omega arith)
      (ground (arith, round_3 (w / 128) (v + w % 128 * (1 * 128)) (u + 1) rest))

round_1 :
    (w : ℕ) (rest : List ℕ)
    → w ≤ max_value
    → deserialize_loop 1 0 0 (groups 3 w ++ rest) ≡ ok (w, length (groups 3 w))
round_1 w rest hw = ground (
  arith,
  group_round 2 w 1 0 0 rest (omega arith) (omega arith) (omega arith)
      (ground (arith, round_2 (w / 128) (0 + w % 128 * 1) (0 + 1) rest)),
)

-- The decoder reads the groups of a number, and leaves what follows them.
pub deserialize-groups :
    (w : ℕ) (rest : List ℕ) → w ≤ max_value → deserialize (groups 3 w ++ rest) ≡ ok (w, rest)
unfolding deserialize
deserialize-groups w rest h = ground (
  arith,
  round_1 w rest h,
  consume-drop (length (groups 3 w)) (groups 3 w ++ rest),
  drop-append (length (groups 3 w)) (groups 3 w) rest (omega arith),
  drop-length (groups 3 w),
)

-- A number of 28 bits is read back from its variable-length encoding, and what follows is left.
pub varlen_int_round_trip :
    (w : ℕ) (rest : List ℕ)
    → w ≤ max_value
    → (serialize w >>= λ written. deserialize (written ++ rest)) ≡ ok (w, rest)
varlen_int_round_trip w rest h = rw (serialize-groups w h) (deserialize-groups w rest h)
