-- ===== src/Property/Codec.antt =====
-- A property is read back from what `property::serialize` writes.
use mqtt.Base.{
  ℕ, ◌%◌, ◌^◌, ◌≤◌, ◌<◌, ◌≡◌, refl, List, ◌++◌, arith, length, ok, append_assoc, length-append,
}
use mqtt.Wire.FixedInt.{u8, u16, u32, deserialize-serialize}
use mqtt.Wire.FixedInt
use mqtt.Wire.VarlenInt.{max_value}
use mqtt.Wire.VarlenInt.Encode.{groups, serialize-groups, length-groups}
use mqtt.Wire.VarlenInt.Decode.{deserialize-groups}
use mqtt.Wire.Text.{serialize_string, serialize_binary, serialize_pair}
use mqtt.Wire.Text.RoundTrip.{IsShort, string_round_trip, binary_round_trip, pair_round_trip}
use mqtt.Property.{
  Value, byte, word, dword, varlen, text, binary, pair, Property, activate_id, read_value,
  write_value, deserialize, serialize,
}

-- `v` is a value of the type that `slot` has, within what the wire can carry.
abbrev pub Holds : Value → Value → Type 0
Holds (byte _) (byte v) = v < 2 ^ 8
Holds (word _) (word v) = v < 2 ^ 16
Holds (dword _) (dword v) = v < 2 ^ 32
Holds (varlen _) (varlen v) = v ≤ max_value
Holds (text _) (text s) = IsShort s
Holds (binary _) (binary bs) = IsShort bs
Holds (pair _) (pair kv) = IsShort kv.key × IsShort kv.value
Holds _ _ = ⊥

pub record IsWellTyped (p : Property) : Type 0 where
  pub small_id : p.identifier ≤ max_value
  pub holds : Holds (activate_id (p.identifier % 2 ^ 8) (byte 0)) p.value

abbrev pub value_encoding : Value → List ℕ
value_encoding (byte v) = FixedInt.serialize u8 v
value_encoding (word v) = FixedInt.serialize u16 v
value_encoding (dword v) = FixedInt.serialize u32 v
value_encoding (varlen v) = groups 3 v
value_encoding (text s) = serialize_string s
value_encoding (binary bs) = serialize_binary bs
value_encoding (pair kv) = serialize_pair kv

-- The bytes of a property that is well typed.
unfoldable pub encoding : Property → List ℕ
encoding p = groups 3 p.identifier ++ value_encoding p.value

write_value-encoding : (slot v : Value) → Holds slot v → write_value v ≡ ok (value_encoding v)
unfolding write_value
write_value-encoding (varlen _) (varlen v) h = serialize-groups v h
write_value-encoding (byte _) (byte v) h = refl
write_value-encoding (word _) (word v) h = refl
write_value-encoding (dword _) (dword v) h = refl
write_value-encoding (text _) (text v) h = refl
write_value-encoding (binary _) (binary v) h = refl
write_value-encoding (pair _) (pair v) h = refl
write_value-encoding _ _ h = absurd h

read_value-encoding :
    (slot v : Value) (rest : List ℕ)
    → Holds slot v
    → read_value slot (value_encoding v ++ rest) ≡ ok (v, rest)
unfolding read_value
read_value-encoding (varlen _) (varlen v) rest h = ground (arith, deserialize-groups v rest)
read_value-encoding (byte _) (byte v) rest h = ground (arith, deserialize-serialize u8 v rest)
read_value-encoding (word _) (word v) rest h = ground (arith, deserialize-serialize u16 v rest)
read_value-encoding (dword _) (dword v) rest h = ground (arith, deserialize-serialize u32 v rest)
read_value-encoding (text _) (text v) rest h = ground (arith, string_round_trip v rest)
read_value-encoding (binary _) (binary v) rest h = ground (arith, binary_round_trip v rest)
read_value-encoding (pair _) (pair v) rest h = ground (arith, pair_round_trip v rest)
read_value-encoding _ _ rest h = absurd h

pub serialize-encoding : (p : Property) → IsWellTyped p → serialize p ≡ ok (encoding p)
unfolding serialize encoding
serialize-encoding p t = ground (
  arith,
  serialize-groups p.identifier t.small_id,
  write_value-encoding (activate_id (p.identifier % 2 ^ 8) (byte 0)) p.value t.holds,
)

pub deserialize-encoding :
    (p : Property) (rest : List ℕ) → IsWellTyped p → deserialize (encoding p ++ rest) ≡ ok (p, rest)
unfolding deserialize encoding
deserialize-encoding p rest t = ground (
  arith,
  append_assoc (groups 3 p.identifier) (value_encoding p.value) rest,
  deserialize-groups p.identifier (value_encoding p.value ++ rest) t.small_id,
  read_value-encoding (activate_id (p.identifier % 2 ^ 8) (byte 0)) p.value rest t.holds,
)

pub length-encoding_pos : (p : Property) → 0 < length (encoding p)
unfolding encoding
length-encoding_pos p = omega (
  arith,
  length-append (groups 3 p.identifier) (value_encoding p.value),
  length-groups 3 p.identifier,
)
