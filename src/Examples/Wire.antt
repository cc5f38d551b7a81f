-- ===== src/Examples/Wire.antt =====
-- The wire types, the properties and the header.
use mqtt.Base.{
  ℕ, ◌%◌, ◌^◌, ◌<◌, ◌≤◌, ◌≡◌, ◌⊎◌, refl, List, [], ◌∷◌, ◌++◌, ok, err, data_overflow,
  not_enough_data, ◌>>=◌, arith, length, drop, take,
}
use mqtt.Wire.Fetcher.{consume}
use mqtt.Wire.FixedInt.{u16, deserialize-serialize}
use mqtt.Wire.FixedInt
use mqtt.Wire.VarlenInt.{max_value, deserialize_loop, can_deserialize}
use mqtt.Wire.VarlenInt
use mqtt.Wire.VarlenInt.Decode.{varlen_int_round_trip}
use mqtt.Wire.VarlenInt.Bounds.{deserialize_bounds, can_deserialize_yes}
use mqtt.Wire.VarlenInt.Encode.{groups}
use mqtt.Wire.Text.{serialize_string, deserialize_string}
use mqtt.Wire.Text.RoundTrip.{deserialize_string-serialize_string}
use mqtt.Wire.Stream.{get_data_until, lacking}
use mqtt.Wire.Stream.Laws.{Fetched, get_data_until-Fetched}
use mqtt.Property.{Property, dword, activate_id}
use mqtt.Property.Codec.{IsWellTyped, encoding}
use mqtt.Properties
use mqtt.Properties.RoundTrip.{round_trip}
use mqtt.Header.{Header, make_header, get_type, get_flags, transformer}
use mqtt.Header
use mqtt.Header.Laws.{make_header_determined, transformer-serialize}
use mqtt.Examples.Chunks.{pieces, pieces-IsSource}

deserialize-serialize_example :
    FixedInt.deserialize u16 (FixedInt.serialize u16 513 ++ 9 ∷ []) ≡ ok (513, 9 ∷ [])
deserialize-serialize_example = deserialize-serialize u16 513 (9 ∷ []) (omega arith)

varlen_int_round_trip_example :
    (VarlenInt.serialize 300 >>= λ written. VarlenInt.deserialize (written ++ 7 ∷ []))
    ≡ ok (300, 7 ∷ [])
varlen_int_round_trip_example = varlen_int_round_trip 300 (7 ∷ []) (omega arith)

abbrev left : List ℕ
left = 9 ∷ []

deserialize_bounds_example :
    (200 ≤ max_value) × ((used : ℕ) × (0 < used) × (used ≤ 4) × (left ≡ drop used (200 ∷ 1 ∷ left)))
unfolding VarlenInt.deserialize deserialize_loop consume
deserialize_bounds_example = deserialize_bounds (200 ∷ 1 ∷ left) left 200 (omega arith) refl

abbrev one : List ℕ
one = 1 ∷ []

can_deserialize_yes_example :
    ((p : ℕ × List ℕ) × (VarlenInt.deserialize (200 ∷ one) ≡ ok p))
    ⊎ ((VarlenInt.deserialize (200 ∷ one) ≡ err data_overflow)
        ⊎ ((VarlenInt.deserialize (200 ∷ one) ≡ err not_enough_data) × (length one ≡ 3)))
unfolding can_deserialize
can_deserialize_yes_example = can_deserialize_yes 200 one refl

-- A session expiry interval of 60.
abbrev expiry : Property
expiry = record { identifier = 17; value = dword 60 }

expiry-IsWellTyped : IsWellTyped expiry
unfolding activate_id
expiry-IsWellTyped = record { small_id = omega arith; holds = omega arith }

round_trip_example :
    (Properties.serialize (expiry ∷ []) >>= λ written. Properties.deserialize (written ++ 1 ∷ []))
    ≡ ok (expiry ∷ [], 1 ∷ [])
unfolding encoding groups FixedInt.serialize
round_trip_example = round_trip (expiry ∷ []) (1 ∷ []) (expiry-IsWellTyped, tt) (omega arith)

make_header_determined_example :
    ((make_header 0xff 3 2 (7 ∷ [])).type_flags ≡ 50)
    × (get_type (make_header 0xff 3 2 (7 ∷ [])).type_flags ≡ 3)
    × (get_flags (make_header 0xff 3 2 (7 ∷ [])).type_flags ≡ 2)
make_header_determined_example =
    make_header_determined 0xff 3 2 (7 ∷ []) (omega arith) (omega arith) (omega arith)

abbrev a_header : Header
a_header = record { type_flags = 50; remaining_length = 300 }

transformer-serialize_example :
    (Header.serialize a_header >>= λ written. transformer (written ++ 7 ∷ []))
    ≡ ok (a_header, 7 ∷ [])
transformer-serialize_example = transformer-serialize a_header (7 ∷ []) (omega arith) (omega arith)

-- Two bytes, of which one has arrived, and a third behind them.
get_data_until-Fetched_example :
    Fetched pieces pieces-IsSource
      (get_data_until pieces 9 (lacking pieces 2) (1 ∷ []) ((2 ∷ 3 ∷ []) ∷ []))
      (1 ∷ 2 ∷ [])
      (3 ∷ [])
      ((2 ∷ 3 ∷ []) ∷ [])
unfolding lacking
get_data_until-Fetched_example =
    get_data_until-Fetched pieces pieces-IsSource (1 ∷ 2 ∷ []) (3 ∷ []) (lacking pieces 2)
      (λ extra. ground arith) (λ b t e p. ground arith) 9 (1 ∷ []) ((2 ∷ 3 ∷ []) ∷ []) (omega arith)
      refl

-- A string of two bytes.
abbrev hi : List ℕ
hi = 104 ∷ 105 ∷ []

deserialize_string-serialize_string_example :
    deserialize_string (serialize_string hi ++ left)
    ≡ ok (take (length hi % 2 ^ 16) hi, drop (length hi % 2 ^ 16) hi ++ left)
deserialize_string-serialize_string_example = deserialize_string-serialize_string hi left
