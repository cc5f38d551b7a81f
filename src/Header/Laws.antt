-- ===== src/Header/Laws.antt =====
-- The header's setters and getters, and its way over the wire.
use mqtt.Base.{ℕ, ◌+◌, ◌*◌, ◌%◌, ◌^◌, ◌<◌, ◌≤◌, ◌≡◌, List, ◌++◌, ◌∷◌, ok, arith, ◌>>=◌}
use mqtt.Base.Bits.{bit_and-15, bit_and-240, bit_or_halves}
use mqtt.Wire.FixedInt.{u8}
use mqtt.Wire.FixedInt
use mqtt.Wire.Fetcher.{consume-drop}
use mqtt.Wire.VarlenInt.{max_value}
use mqtt.Wire.VarlenInt.Encode.{groups, serialize-groups}
use mqtt.Wire.VarlenInt.Decode.{deserialize-groups}
use mqtt.Header.{Header, get_flags, get_type, make_header, serialize, transformer}

-- For a type and flags of four bits each, the constructor of a header leaves both in place
-- whatever byte its memory held, and the getters give them back.
pub make_header_determined :
    (g t f : ℕ) (body : List ℕ)
    → g < 256
    → t < 16
    → f < 16
    → ((make_header g t f body).type_flags ≡ t * 16 + f)
      × (get_type (make_header g t f body).type_flags ≡ t)
      × (get_flags (make_header g t f body).type_flags ≡ f)
unfolding make_header get_type get_flags
make_header_determined g t f body hg ht hf = ground (
  arith,
  bit_and-15 g hg,
  bit_and-15 f (omega arith),
  bit_and-240 ((g % 16 + t * 2 ^ 4) % 2 ^ 8) (omega arith),
  bit_or_halves t f ht hf,
  bit_and-15 (t * 16 + f) (omega arith),
)

-- What a header with a length of 28 bits is written as.
unfoldable pub header_bytes : Header → List ℕ
header_bytes hdr = FixedInt.serialize u8 hdr.type_flags ++ groups 3 hdr.remaining_length

pub serialize-header_bytes :
    (hdr : Header) → hdr.remaining_length ≤ max_value → serialize hdr ≡ ok (header_bytes hdr)
unfolding serialize header_bytes
serialize-header_bytes hdr hl = ground (arith, serialize-groups hdr.remaining_length hl)

pub transformer-header_bytes :
    (hdr : Header) (rest : List ℕ)
    → hdr.type_flags < 256
    → hdr.remaining_length ≤ max_value
    → transformer (header_bytes hdr ++ rest) ≡ ok (hdr, rest)
unfolding header_bytes transformer FixedInt.serialize
transformer-header_bytes hdr rest ht hl = ground (
  arith,
  consume-drop 1 (hdr.type_flags ∷ (groups 3 hdr.remaining_length ++ rest)),
  deserialize-groups hdr.remaining_length rest hl,
)

-- A header whose length fits 28 bits is read back from what it is written as, and what follows
-- is left.
pub transformer-serialize :
    (hdr : Header) (rest : List ℕ)
    → hdr.type_flags < 256
    → hdr.remaining_length ≤ max_value
    → (serialize hdr >>= λ written. transformer (written ++ rest)) ≡ ok (hdr, rest)
transformer-serialize hdr rest ht hl =
    rw (serialize-header_bytes hdr hl) (transformer-header_bytes hdr rest ht hl)
