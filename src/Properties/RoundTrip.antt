-- ===== src/Properties/RoundTrip.antt =====
-- The list of properties is read back from what `properties::serialize` writes.
use mqtt.Base.{
  ℕ, zero, suc, ◌^◌, ◌≤◌, ◌<◌, ◌≡◌, refl, List, [], ◌∷◌, ◌++◌, arith, length, ok, err, append_assoc,
  length-append, All, ◌>>=◌, take-append, drop-append, take-length, drop-length, value_exceeds_max,
}
use mqtt.Wire.Fetcher.{cspan, consume, consume-drop}
use mqtt.Wire.VarlenInt.{max_value}
use mqtt.Wire.VarlenInt
use mqtt.Wire.VarlenInt.Encode.{groups, serialize-groups}
use mqtt.Wire.VarlenInt.Decode.{deserialize-groups}
use mqtt.Property.{Property}
use mqtt.Property
use mqtt.Property.Codec.{
  IsWellTyped, encoding, serialize-encoding, deserialize-encoding, length-encoding_pos,
}
use mqtt.Properties.{deserialize_loop, deserialize, serialize_all, serialize}

-- The bytes of properties that are well typed.
abbrev pub encodings : List Property → List ℕ
encodings [] = []
encodings (p ∷ ps) = encoding p ++ encodings ps

serialize_all-encodings :
    (ps : List Property) → All IsWellTyped ps → serialize_all ps ≡ ok (encodings ps)
unfolding serialize_all
serialize_all-encodings [] t = refl
serialize_all-encodings (p ∷ ps) (t, ts) =
    ground (arith, serialize-encoding p t, serialize_all-encodings ps ts)

loop_step :
    (fuel : ℕ) (span rest : List ℕ) (p : Property)
    → 0 < length span
    → Property.deserialize span ≡ ok (p, rest)
    → deserialize_loop (suc fuel) span ≡ (deserialize_loop fuel rest >>= λ props. ok (p ∷ props))
unfolding deserialize_loop
loop_step fuel [] rest p h e = absurd (omega arith)
loop_step fuel (b ∷ bs) rest p h e = ground arith

deserialize_loop-encodings :
    (fuel : ℕ) (ps : List Property)
    → All IsWellTyped ps
    → length (encodings ps) ≤ fuel
    → deserialize_loop fuel (encodings ps) ≡ ok ps
deserialize_loop-encodings fuel [] t h = unfold deserialize_loop in refl
deserialize_loop-encodings zero (p ∷ ps) t h =
    absurd (omega (arith, length-append (encoding p) (encodings ps), length-encoding_pos p))
deserialize_loop-encodings (suc fuel) (p ∷ ps) (t, ts) h = ground (
  arith,
  length-append (encoding p) (encodings ps),
  length-encoding_pos p,
  loop_step fuel (encoding p ++ encodings ps) (encodings ps) p,
  deserialize-encoding p (encodings ps) t,
  deserialize_loop-encodings fuel ps ts,
)

cspan-whole : (xs ys : List ℕ) → cspan (length xs) (xs ++ ys) ≡ ok xs
unfolding cspan
cspan-whole xs ys =
    ground (arith, length-append xs ys, take-append (length xs) xs ys, take-length xs)

consume-whole : (xs ys : List ℕ) → consume (length xs) (xs ++ ys) ≡ ys
consume-whole xs ys =
    ground
      (arith, consume-drop (length xs) (xs ++ ys), drop-append (length xs) xs ys, drop-length xs)

-- What `serialize` writes for well-typed properties that fit a length of 28 bits.
pub serialize-encodings :
    (ps : List Property)
    → All IsWellTyped ps
    → length (encodings ps) ≤ max_value
    → serialize ps ≡ ok (groups 3 (length (encodings ps)) ++ encodings ps)
unfolding serialize
serialize-encodings ps t h =
    ground (arith, serialize_all-encodings ps t, serialize-groups (length (encodings ps)) h)

-- It is read back, and what follows is left.
pub deserialize-encodings :
    (ps : List Property) (rest : List ℕ)
    → All IsWellTyped ps
    → length (encodings ps) ≤ max_value
    → deserialize ((groups 3 (length (encodings ps)) ++ encodings ps) ++ rest) ≡ ok (ps, rest)
unfolding deserialize
deserialize-encodings ps rest t h = ground (
  arith,
  append_assoc (groups 3 (length (encodings ps))) (encodings ps) rest,
  deserialize-groups (length (encodings ps)) (encodings ps ++ rest) h,
  cspan-whole (encodings ps) rest,
  consume-whole (encodings ps) rest,
  deserialize_loop-encodings (length (encodings ps)) ps t,
)

-- Well-typed properties that fit 28 bits of length are read back from what they are written as,
-- and what follows is left.
pub round_trip :
    (ps : List Property) (rest : List ℕ)
    → All IsWellTyped ps
    → length (encodings ps) ≤ max_value
    → (serialize ps >>= λ written. deserialize (written ++ rest)) ≡ ok (ps, rest)
round_trip ps rest t h = rw (serialize-encodings ps t h) (deserialize-encodings ps rest t h)

-- Longer ones, up to what a uint32_t counts, are refused.
pub serialize_too_long :
    (ps : List Property)
    → All IsWellTyped ps
    → max_value < length (encodings ps)
    → length (encodings ps) < 2 ^ 32
    → serialize ps ≡ err value_exceeds_max
unfolding serialize VarlenInt.serialize
serialize_too_long ps t lo hi = ground (arith, serialize_all-encodings ps t)
