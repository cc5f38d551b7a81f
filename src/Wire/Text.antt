-- ===== src/Wire/Text.antt =====
-- include/mqtt5/protocol/string.hpp and binary.hpp: bytes behind a length of 16 bits. A std::string
-- is the list of its bytes, so that both classes have one type.
use mqtt.Base.{
  ℕ, ◌%◌, ◌^◌, ◌≡◌, List, ◌++◌, ltb, if◌then◌else◌, length, take, Result, ok, err, not_enough_bytes,
}
use mqtt.Wire.Fetcher.{Reader, ◌>>=◌, pure, read_span, consume}
use mqtt.Wire.FixedInt.{u16}
use mqtt.Wire.FixedInt
pub mod RoundTrip

unfoldable pub deserialize_string : Reader (List ℕ)
deserialize_string = do string_size ← FixedInt.deserialize u16; read_span string_size

-- The size is cast to std::uint16_t, and all the bytes are written.
unfoldable pub serialize_string : List ℕ → List ℕ
serialize_string text = FixedInt.serialize u16 (length text % 2 ^ 16) ++ text

unfoldable pub take_binary : ℕ → Reader (List ℕ)
take_binary bin_size span =
    if ltb (length span) bin_size
    then err not_enough_bytes
    else ok (take bin_size span, consume bin_size span)

unfoldable pub deserialize_binary : Reader (List ℕ)
unfolding take_binary
deserialize_binary = do bin_size ← FixedInt.deserialize u16; take_binary bin_size

unfoldable pub serialize_binary : List ℕ → List ℕ
serialize_binary bytes = FixedInt.serialize u16 (length bytes % 2 ^ 16) ++ bytes

pub record KeyValuePair : Type 0 where
  pub key : List ℕ
  pub value : List ℕ

unfoldable pub deserialize_pair : Reader KeyValuePair
deserialize_pair = do
  k ← deserialize_string
  v ← deserialize_string
  pure (record { key = k; value = v })

unfoldable pub serialize_pair : KeyValuePair → List ℕ
serialize_pair kv = serialize_string kv.key ++ serialize_string kv.value
