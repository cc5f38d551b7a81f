-- ===== src/Wire/Text/RoundTrip.antt =====
-- What a string, a binary or a pair is read back as.
use mqtt.Base.{
  ℕ, ◌%◌, ◌^◌, ◌≤◌, ◌<◌, ◌≡◌, List, ◌++◌, arith, length, take, drop, ok, append_assoc,
  length-append, take-append, drop-append, take-length, drop-length,
}
use mqtt.Wire.Fetcher.{read_span, consume-drop, cspan}
use mqtt.Wire.FixedInt.{u16, deserialize-serialize}
use mqtt.Wire.FixedInt
use mqtt.Wire.Text.{
  KeyValuePair, deserialize_string, serialize_string, take_binary, deserialize_binary,
  serialize_binary, deserialize_pair, serialize_pair,
}

-- The length that fits 16 bits.
abbrev pub IsShort : List ℕ → Type 0
IsShort text = length text < 2 ^ 16

read_span-within :
    (n : ℕ) (xs ys : List ℕ)
    → n ≤ length xs
    → read_span n (xs ++ ys) ≡ ok (take n xs, drop n xs ++ ys)
unfolding read_span cspan
read_span-within n xs ys h = ground (
  arith,
  length-append xs ys,
  take-append n xs ys h,
  drop-append n xs ys h,
  consume-drop n (xs ++ ys),
)

take_binary-within :
    (n : ℕ) (xs ys : List ℕ)
    → n ≤ length xs
    → take_binary n (xs ++ ys) ≡ ok (take n xs, drop n xs ++ ys)
unfolding take_binary
take_binary-within n xs ys h = ground (
  arith,
  length-append xs ys,
  take-append n xs ys h,
  drop-append n xs ys h,
  consume-drop n (xs ++ ys),
)

-- A string of any length is read back as its first bytes, as many as its length modulo 65536,
-- and the other bytes stay in front of what follows.
pub deserialize_string-serialize_string :
    (text rest : List ℕ)
    → let n = length text % 2 ^ 16 in
      deserialize_string (serialize_string text ++ rest) ≡ ok (take n text, drop n text ++ rest)
unfolding deserialize_string serialize_string
deserialize_string-serialize_string text rest = ground (
  arith,
  append_assoc (FixedInt.serialize u16 (length text % 2 ^ 16)) text rest,
  deserialize-serialize u16 (length text % 2 ^ 16) (text ++ rest) (omega arith),
  read_span-within (length text % 2 ^ 16) text rest (omega arith),
)

pub deserialize_binary-serialize_binary :
    (bytes rest : List ℕ)
    → let n = length bytes % 2 ^ 16 in
      deserialize_binary (serialize_binary bytes ++ rest) ≡ ok (take n bytes, drop n bytes ++ rest)
unfolding deserialize_binary serialize_binary
deserialize_binary-serialize_binary bytes rest = ground (
  arith,
  append_assoc (FixedInt.serialize u16 (length bytes % 2 ^ 16)) bytes rest,
  deserialize-serialize u16 (length bytes % 2 ^ 16) (bytes ++ rest) (omega arith),
  take_binary-within (length bytes % 2 ^ 16) bytes rest (omega arith),
)

pub string_round_trip :
    (text rest : List ℕ)
    → IsShort text
    → deserialize_string (serialize_string text ++ rest) ≡ ok (text, rest)
string_round_trip text rest h =
    ground
      (arith, deserialize_string-serialize_string text rest, take-length text, drop-length text)

pub binary_round_trip :
    (bytes rest : List ℕ)
    → IsShort bytes
    → deserialize_binary (serialize_binary bytes ++ rest) ≡ ok (bytes, rest)
binary_round_trip bytes rest h =
    ground
      (arith, deserialize_binary-serialize_binary bytes rest, take-length bytes, drop-length bytes)

pub pair_round_trip :
    (kv : KeyValuePair) (rest : List ℕ)
    → IsShort kv.key
    → IsShort kv.value
    → deserialize_pair (serialize_pair kv ++ rest) ≡ ok (kv, rest)
unfolding deserialize_pair serialize_pair
pair_round_trip kv rest hk hv = ground (
  arith,
  append_assoc (serialize_string kv.key) (serialize_string kv.value) rest,
  string_round_trip kv.key (serialize_string kv.value ++ rest) hk,
  string_round_trip kv.value rest hv,
)

pub length-serialize_string_pos : (text : List ℕ) → 2 ≤ length (serialize_string text)
unfolding serialize_string
length-serialize_string_pos text = omega (
  arith,
  length-append (FixedInt.serialize u16 (length text % 2 ^ 16)) text,
  FixedInt.length-serialize u16 (length text % 2 ^ 16),
)
