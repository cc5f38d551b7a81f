-- ===== src/Wire/VarlenInt.antt =====
-- include/mqtt5/protocol/varlen_int.hpp: integers below 2 ^ 28 in 1 to 4 bytes, seven bits to a
-- byte, the low group first. All sums and products are those of std::uint32_t.
pub mod Encode
pub mod Decode
pub mod Bounds
pub mod Prefix
use mqtt.Base.{
  ℕ, zero, suc, ◌+◌, ◌*◌, ◌/◌, ◌%◌, ◌^◌, List, [], ◌∷◌, Bool, true, not, ◌&&◌, ltb, ◌==◌,
  if◌then◌else◌, is_empty, length, Result, ok, err, undefined_read, data_overflow, not_enough_data,
  value_exceeds_max, bit_and, bit_or,
}
use mqtt.Base
use mqtt.Wire.Fetcher.{Reader, consume}

abbrev pub max_value : ℕ
max_value = 268_435_455

-- A byte that ends an encoding.
abbrev ends : ℕ → Bool
ends b = bit_and b 128 == 0

any_ends : List ℕ → Bool
any_ends [] = Base.false
any_ends (b ∷ bs) = if ends b then true else any_ends bs

unfoldable pub can_deserialize : List ℕ → Bool
unfolding any_ends
can_deserialize span = if ltb 3 (length span) then true else any_ends span

-- The do-while loop of the private `deserialize`. The list is what `iter` has not passed, so a first
-- round over an empty span reads at its end.
unfoldable pub deserialize_loop : ℕ → ℕ → ℕ → List ℕ → Result (ℕ × ℕ)
deserialize_loop multiplier value data_used [] = err undefined_read
deserialize_loop multiplier value data_used (encoded_byte ∷ iter) =
    let value' = (value + bit_and encoded_byte 127 * multiplier % 2 ^ 32) % 2 ^ 32 in
    let more = deserialize_loop (multiplier * 128 % 2 ^ 32) value' (data_used + 1) iter in
    if ltb (128 * 128 * 128) multiplier
    then err data_overflow
    else if is_empty iter && not (ends encoded_byte)
    then err not_enough_data
    else if ends encoded_byte
    then ok (value', data_used + 1)
    else more

unfoldable pub deserialize : Reader ℕ
deserialize span =
    Base.◌>>=◌ (deserialize_loop 1 0 0 span)
      (λ (value, bytes_used). ok (value, consume bytes_used span))

-- The do-while loop of `serialize`, with fuel for its rounds.
unfoldable pub serialize_loop : ℕ → ℕ → List ℕ
serialize_loop zero val = []
serialize_loop (suc fuel) val =
    let rest = serialize_loop fuel (val / 128) in
    if ltb 0 (val / 128) then bit_or (val % 128) 0x80 ∷ rest else val % 128 ∷ []

-- Four rounds are enough for what passes the guard.
unfoldable pub serialize : ℕ → Result (List ℕ)
serialize value = if ltb max_value value then err value_exceeds_max else ok (serialize_loop 4 value)
