-- ===== src/Property.antt =====
-- include/mqtt5/protocol/properties.hpp: one property, an identifier and a value whose type the
-- identifier selects.
pub mod Codec
use mqtt.Base.{
  ℕ, ◌*◌, ◌%◌, ◌^◌, List, [], ◌∷◌, ◌++◌, Result, ok, err, mismatched_set, mismatched_get, ◌==◌,
  if◌then◌else◌,
}
use mqtt.Base
use mqtt.Wire.Fetcher.{Reader, ◌>>=◌, pure}
use mqtt.Wire.FixedInt.{Width, u8, u16, u32, size_of}
use mqtt.Wire.FixedInt
use mqtt.Wire.VarlenInt
use mqtt.Wire.Text.{
  KeyValuePair, deserialize_string, serialize_string, deserialize_binary, serialize_binary,
  deserialize_pair, serialize_pair,
}

-- `value_storage`, the std::variant of a property's value.
pub data Value : Type 0 where
  byte word dword varlen : ℕ → Value
  text binary : List ℕ → Value
  pair : KeyValuePair → Value

pub record Property : Type 0 where
  pub identifier : ℕ
  pub value : Value

abbrev empty_pair : KeyValuePair
empty_pair = record { key = []; value = [] }

-- The cases of `activate_id`: the identifier, and the value that `emplace` leaves.
activations : List (ℕ × Value)
activations =
    (1, byte 0)
    ∷ (2, dword 0)
    ∷ (3, text [])
    ∷ (8, text [])
    ∷ (9, binary [])
    ∷ (11, binary [])
    ∷ (17, dword 0)
    ∷ (18, text [])
    ∷ (19, word 0)
    ∷ (21, text [])
    ∷ (22, binary [])
    ∷ (23, byte 0)
    ∷ (24, dword 0)
    ∷ (25, byte 0)
    ∷ (26, text [])
    ∷ (28, text [])
    ∷ (31, text [])
    ∷ (33, word 0)
    ∷ (34, word 0)
    ∷ (35, word 0)
    ∷ (36, byte 0)
    ∷ (37, byte 0)
    ∷ (38, pair empty_pair)
    ∷ (39, dword 0)
    ∷ (40, byte 0)
    ∷ (41, byte 0)
    ∷ (42, byte 0)
    ∷ []

select : ℕ → Value → List (ℕ × Value) → Value
select id current [] = current
select id current ((i, v) ∷ cases) = if id == i then v else select id current cases

-- `id` is a std::uint8_t. An identifier with no case leaves the value as it was.
unfoldable pub activate_id : ℕ → Value → Value
unfolding activations select
activate_id id current = select id current activations

-- `deserializer`: a read at the type that the variant holds.
unfoldable pub read_value : Value → Reader Value
read_value (byte _) = do v ← FixedInt.deserialize u8; pure (byte v)
read_value (word _) = do v ← FixedInt.deserialize u16; pure (word v)
read_value (dword _) = do v ← FixedInt.deserialize u32; pure (dword v)
read_value (varlen _) = do v ← VarlenInt.deserialize; pure (varlen v)
read_value (text _) = do v ← deserialize_string; pure (text v)
read_value (binary _) = do v ← deserialize_binary; pure (binary v)
read_value (pair _) = do v ← deserialize_pair; pure (pair v)

-- `serializer`
unfoldable pub write_value : Value → Result (List ℕ)
write_value (byte v) = ok (FixedInt.serialize u8 v)
write_value (word v) = ok (FixedInt.serialize u16 v)
write_value (dword v) = ok (FixedInt.serialize u32 v)
write_value (varlen v) = VarlenInt.serialize v
write_value (text v) = ok (serialize_string v)
write_value (binary v) = ok (serialize_binary v)
write_value (pair v) = ok (serialize_pair v)

-- A property starts with the variant's first alternative, a zero byte.
unfoldable pub deserialize : Reader Property
deserialize = do
  identifier ← VarlenInt.deserialize
  value ← read_value (activate_id (identifier % 2 ^ 8) (byte 0))
  pure (record { identifier = identifier; value = value })

unfoldable pub serialize : Property → Result (List ℕ)
serialize prop =
    Base.◌>>=◌ (VarlenInt.serialize prop.identifier)
      λ id_bytes. Base.◌>>=◌ (write_value prop.value) λ value_bytes. ok (id_bytes ++ value_bytes)

-- The types of value that the callers of `set_id_value` pass.
pub data Given : Type 0 where
  integral : ℕ → Given
  string : List ℕ → Given
  bytes : List ℕ → Given
  key_value : KeyValuePair → Given

-- The overloads of `assign_value`: by the type that is active, and the type that is given.
unfoldable pub assign_value : Value → Given → Result Value
assign_value (varlen _) (integral n) = ok (varlen (n % 2 ^ 32))
assign_value (byte _) (integral n) = ok (byte (n % 2 ^ 8))
assign_value (word _) (integral n) = ok (word (n % 2 ^ 16))
assign_value (dword _) (integral n) = ok (dword (n % 2 ^ 32))
assign_value (text _) (string s) = ok (text s)
assign_value (binary _) (bytes bs) = ok (binary bs)
assign_value (pair _) (key_value kv) = ok (pair kv)
assign_value _ _ = err mismatched_set

-- The constructor of an identifier and a value, through `set_id_value`.
unfoldable pub make_property : ℕ → Given → Result Property
make_property id given =
    Base.◌>>=◌ (assign_value (activate_id id (byte 0)) given)
      λ v. ok (record { identifier = id; value = v })

-- The overloads of `get_value_into`, by the type that `value_as` asks for.
unfoldable pub as_integral : Width → Value → Result ℕ
as_integral w (byte v) = ok (v % 2 ^ (8 * size_of w))
as_integral w (word v) = ok (v % 2 ^ (8 * size_of w))
as_integral w (dword v) = ok (v % 2 ^ (8 * size_of w))
as_integral w (varlen v) = ok (v % 2 ^ (8 * size_of w))
as_integral w _ = err mismatched_get

unfoldable pub as_string : Value → Result (List ℕ)
as_string (text s) = ok s
as_string _ = err mismatched_get

unfoldable pub as_binary : Value → Result (List ℕ)
as_binary (binary bs) = ok bs
as_binary _ = err mismatched_get

unfoldable pub as_pair : Value → Result KeyValuePair
as_pair (pair kv) = ok kv
as_pair _ = err mismatched_get
