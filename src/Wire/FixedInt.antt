-- ===== src/Wire/FixedInt.antt =====
-- include/mqtt5/protocol/fixed_int.hpp: unsigned integers of 1, 2 and 4 bytes, high byte first.
use mqtt.Base.{
  ℕ, zero, suc, ◌+◌, ◌-◌, ◌*◌, ◌/◌, ◌%◌, ◌^◌, ◌<◌, ◌≡◌, List, [], ◌∷◌, ◌++◌, arith, ltb,
  if◌then◌else◌, length, ok, All,
}
use mqtt.Wire.Fetcher.{Reader, ◌>>=◌, pure, read_span, read_span-append}

-- The types T at which the source uses `fixed_int<T>`.
pub data Width : Type 0 where
  u8 u16 u32 : Width

abbrev pub size_of : Width → ℕ
size_of u8 = 1
size_of u16 = 2
size_of u32 = 4

abbrev pub IsByte : ℕ → Type 0
IsByte b = b < 256

-- The values of T.
abbrev pub Fits : Width → ℕ → Type 0
Fits u8 v = v < 2 ^ 8
Fits u16 v = v < 2 ^ 16
Fits u32 v = v < 2 ^ 32

-- The loop of `deserialize`. `size` is `sizeof(T)`, and the value wraps at its width.
unfoldable pub deserialize_loop : ℕ → ℕ → List ℕ → ℕ
deserialize_loop size value [] = value
deserialize_loop size value (b ∷ bs) =
    let shifted = if ltb 1 size then value * 256 % 2 ^ (8 * size) else value in
    deserialize_loop size ((shifted + b) % 2 ^ (8 * size)) bs

unfoldable pub deserialize : Width → Reader ℕ
unfolding deserialize_loop
deserialize w = do my_data ← read_span (size_of w); pure (deserialize_loop (size_of w) 0 my_data)

-- The loop of `serialize`, with the rounds that are left. `shift_amount` is a uint32_t.
unfoldable pub serialize_loop : ℕ → ℕ → ℕ → List ℕ
serialize_loop zero shift_amount ui_value = []
serialize_loop (suc rounds) shift_amount ui_value =
    (ui_value / 2 ^ shift_amount % 256)
    ∷ serialize_loop rounds ((shift_amount + 2 ^ 32 - 8) % 2 ^ 32) ui_value

unfoldable pub serialize : Width → ℕ → List ℕ
unfolding serialize_loop
serialize w value = serialize_loop (size_of w) (8 * (size_of w - 1)) value

pub length-serialize : (w : Width) (v : ℕ) → length (serialize w v) ≡ size_of w
unfolding serialize
length-serialize u8 v = omega arith
length-serialize u16 v = omega arith
length-serialize u32 v = omega arith

pub serialize-IsByte : (w : Width) (v : ℕ) → All IsByte (serialize w v)
unfolding serialize
serialize-IsByte u8 v = omega arith
serialize-IsByte u16 v = omega arith
serialize-IsByte u32 v = omega arith

-- The loop of `deserialize` undoes that of `serialize`.
deserialize_loop-serialize :
    (w : Width) (v : ℕ) → Fits w v → deserialize_loop (size_of w) 0 (serialize w v) ≡ v
unfolding serialize deserialize_loop
deserialize_loop-serialize u8 v h = omega arith
deserialize_loop-serialize u16 v h = omega arith
deserialize_loop-serialize u32 v h = omega arith

-- A value of 8, 16 or 32 bits is read back from its bytes, and what follows is left.
pub deserialize-serialize :
    (w : Width) (v : ℕ) (rest : List ℕ)
    → Fits w v
    → deserialize w (serialize w v ++ rest) ≡ ok (v, rest)
unfolding deserialize
deserialize-serialize w v rest h = ground (
  arith,
  length-serialize w v,
  read_span-append (serialize w v) rest,
  deserialize_loop-serialize w v h,
)
