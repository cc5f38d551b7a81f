-- ===== src/Header/Arrival.antt =====
-- The predicate of the header's deserializer on data that arrive piece by piece.
use mqtt.Base.{ℕ, ◌≤◌, ◌≡◌, List, [], ◌∷◌, ◌++◌, arith, length, length-append, true}
use mqtt.Wire.FixedInt.{u8}
use mqtt.Wire.FixedInt
use mqtt.Wire.VarlenInt.{max_value, can_deserialize}
use mqtt.Wire.VarlenInt.Encode.{groups, length-groups}
use mqtt.Wire.VarlenInt.Prefix.{can_deserialize-groups, can_deserialize_whole}
use mqtt.Header.{Header, fetcher_predicate}
use mqtt.Header.Laws.{header_bytes}

module _ (hdr : Header) (hl : hdr.remaining_length ≤ max_value) where
  -- It is content with a whole header,
  pub fetcher_predicate-header_bytes :
      (extra : List ℕ) → fetcher_predicate (header_bytes hdr ++ extra) ≡ 0
  unfolding fetcher_predicate header_bytes FixedInt.serialize
  fetcher_predicate-header_bytes extra = ground (
    arith,
    length-groups 3 hdr.remaining_length,
    length-append (groups 3 hdr.remaining_length) extra,
    can_deserialize-groups hdr.remaining_length extra hl,
  )

  -- and with no less.
  pub fetcher_predicate_whole :
      (b t rest : List ℕ)
      → b ++ t ≡ header_bytes hdr ++ rest
      → fetcher_predicate b ≡ 0
      → length (header_bytes hdr) ≤ length b
  unfolding fetcher_predicate header_bytes FixedInt.serialize
  fetcher_predicate_whole [] t rest e p = absurd (ground arith)
  fetcher_predicate_whole (x ∷ xs) t rest e p =
      let e1 : xs ++ t ≡ groups 3 hdr.remaining_length ++ rest = cc e in
      let c : can_deserialize xs ≡ true = ground arith in
      omega (arith, can_deserialize_whole hdr.remaining_length xs t rest hl e1 c)
