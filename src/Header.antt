-- ===== src/Header.antt =====
-- include/mqtt5/protocol/header.hpp: the fixed header of a control packet.
pub mod Laws
pub mod Arrival
use mqtt.Base.{
  ℕ, ◌+◌, ◌-◌, ◌*◌, ◌/◌, ◌%◌, ◌^◌, List, [], ◌∷◌, ◌++◌, Result, ok, err, undefined_read, ltb,
  if◌then◌else◌, length, drop, bit_and, bit_or, ◌>>=◌,
}
use mqtt.Wire.Fetcher.{Reader, consume}
use mqtt.Wire.FixedInt.{u8}
use mqtt.Wire.FixedInt
use mqtt.Wire.VarlenInt
use mqtt.Wire.VarlenInt.{can_deserialize}

pub record Header : Type 0 where
  pub type_flags : ℕ
  pub remaining_length : ℕ

-- Each works on the std::uint8_t `type_flags_`.
unfoldable pub get_flags : ℕ → ℕ
get_flags type_flags = bit_and type_flags 15

unfoldable pub get_type : ℕ → ℕ
get_type type_flags = type_flags / 2 ^ 4

unfoldable pub set_type : ℕ → ℕ → ℕ
unfolding get_flags
set_type t type_flags = (get_flags type_flags + t * 2 ^ 4) % 2 ^ 8

unfoldable pub set_flags : ℕ → ℕ → ℕ
set_flags f type_flags = bit_or (bit_and type_flags 240) (bit_and f 15)

-- The constructor. `type_flags_` has no initializer, so the first setter reads whatever byte the
-- memory holds, `indeterminate`. The length of the body is counted in a std::uint32_t.
unfoldable pub make_header : ℕ → ℕ → ℕ → List ℕ → Header
unfolding set_type set_flags
make_header indeterminate type flags body = record {
  type_flags = set_flags flags (set_type type indeterminate);
  remaining_length = length body % 2 ^ 32;
}

unfoldable pub serialize : Header → Result (List ℕ)
serialize hdr = do
  len_bytes ← VarlenInt.serialize hdr.remaining_length
  ok (FixedInt.serialize u8 hdr.type_flags ++ len_bytes)

-- The predicate of `inplace_deserializer`: how many bytes more it asks for.
unfoldable pub fetcher_predicate : List ℕ → ℕ
fetcher_predicate fetched =
    if ltb (length fetched) 2
    then 2 - length fetched
    else if can_deserialize (drop 1 fetched)
    then 0
    else 1

-- Its transformer, which reads `data[0]` with no check.
unfoldable pub transformer : Reader Header
transformer [] = err undefined_read
transformer (b ∷ bs) = do
  (len, rest) ← VarlenInt.deserialize (consume 1 (b ∷ bs))
  ok (record { type_flags = b; remaining_length = len }, rest)
