-- ===== src/Packet/Disconnect/RoundTrip.antt =====
-- DISCONNECT packets are read back as they were.
use mqtt.Base.{
  ℕ, ◌^◌, ◌<◌, ◌≤◌, ◌≡◌, refl, ap, List, [], ◌∷◌, ◌++◌, ok, ◌>>=◌, arith, length, length-append,
  ◌∙◌, Bool-cases, inl, inr, true, false, ◌==◌, ◌&&◌, if◌then◌else◌, drop, is_empty, ltb,
  bytes_eq_sound, append-nil,
}
use mqtt.Wire.Fetcher.{cspan-all}
use mqtt.Wire.FixedInt.{u8, deserialize-serialize}
use mqtt.Wire.FixedInt
use mqtt.Wire.VarlenInt.Encode.{groups, length-groups}
use mqtt.Property.{Property, activate_id, as_string, as_integral, as_pair}
use mqtt.Property.Codec.{length-encoding_pos, encoding}
use mqtt.Properties.{handle_property}
use mqtt.Properties.RoundTrip.{encodings}
use mqtt.Properties.Fields.{for_each}
use mqtt.Properties.Fields.Out.{stored, user}
use mqtt.Properties.Fields.Written.{written}
use mqtt.Properties.Fields.In.{read_string, read_number}
use mqtt.Properties.Fields.Struct.{
  IsSendableStruct, struct_bytes, serialize_struct-bytes, deserialize_struct-bytes, read_base,
}
use mqtt.Packet.Framing.{framed_header}
use mqtt.Packet.Disconnect.{
  Disconnect, DisconnectProperties, dflt, type_value, read_property, deserialize_properties, fields,
  serialize_properties, is_default, read_properties, deserialize_fields, deserialize,
  serialize_body,
}

pub record IsSendableDisconnect (p : Disconnect) : Type 0 where
  pub reason : p.reason < 2 ^ 8
  pub expiry : p.properties.session_expiry_interval < 2 ^ 32
  pub properties : IsSendableStruct (fields p.properties) p.properties.base

empty-nil {ℓ} : {A : Type ℓ} (xs : List A) → is_empty xs ≡ true → xs ≡ []
empty-nil [] e = refl
empty-nil (x ∷ xs) e = cc

-- Properties of which nothing is written are those of a new packet.
nothing_written :
    (ps : List Property) (p : DisconnectProperties)
    → length (encodings ps) ≤ 0
    → for_each read_property ps dflt ≡ ok p
    → dflt ≡ p
unfolding for_each
nothing_written [] p h e = cc
nothing_written (q ∷ ps) p h e =
    absurd (omega (arith, length-append (encoding q) (encodings ps), length-encoding_pos q))

module _ (p : DisconnectProperties) (hx : p.session_expiry_interval < 2 ^ 32) where
  abbrev s1 : DisconnectProperties
  s1 = record dflt { session_expiry_interval = p.session_expiry_interval }

  abbrev s2 : DisconnectProperties
  s2 = record s1 { reason_string = p.reason_string }

  abbrev s3 : DisconnectProperties
  s3 = record s2 { server_reference = p.server_reference }

  for_each-written :
      IsSendableStruct (fields p) p.base
      → for_each read_property (written (fields p) p.base) dflt ≡ ok p
  unfolding read_property stored activate_id as_string as_integral user handle_property as_pair
  for_each-written s =
      read_number read_property 0 17 p.session_expiry_interval (drop 1 (fields p)) _ dflt s1
        (ground arith) (λ e. rw e)
      ∙ read_string read_property 31 p.reason_string (drop 2 (fields p)) _ s1 s2 refl (λ e. rw e)
      ∙ read_string read_property 28 p.server_reference [] _ s2 s3 refl (λ e. rw e)
      ∙ read_base read_property (λ b. record s3 { base = b }) (fields p) p.base (λ b kv. refl)
          (λ b q h. ground arith) s.base_sendable.apart.foreign

  pub default-eq : is_default p ≡ true → p ≡ dflt
  unfolding is_default
  default-eq e = ground (
    arith,
    bytes_eq_sound p.reason_string [],
    bytes_eq_sound p.server_reference [],
    empty-nil p.base.user_property,
    empty-nil p.base.unknown_properties,
  )

abbrev pub property_bytes : Disconnect → List ℕ
property_bytes p = struct_bytes (fields p.properties) p.properties.base

abbrev pub body_bytes : Disconnect → List ℕ
body_bytes p =
    if p.reason == 0 && is_default p.properties
    then []
    else FixedInt.serialize u8 p.reason ++ property_bytes p

not_longer : (n : ℕ) → ltb 1 n ≡ false → n ≤ 1
not_longer n e = ground arith

first_byte :
    (span : List ℕ)
    → 0 < length span
    → deserialize_fields span ≡ (
        FixedInt.deserialize u8 span >>= λ (reason, rest).
        read_properties rest >>= λ (properties, _).
        ok (record { reason = reason; properties = properties }))
unfolding deserialize_fields
first_byte [] h = absurd (omega arith)
first_byte (b ∷ bs) h = refl

module _ (p : Disconnect) (s : IsSendableDisconnect p) where
  pub serialize_body-body_bytes : serialize_body p ≡ ok (body_bytes p)
  unfolding serialize_body serialize_properties activate_id
  serialize_body-body_bytes = ground (
    arith,
    serialize_struct-bytes (fields p.properties) p.properties.base s.properties (tt, (tt, (tt, tt)))
        (omega arith),
  )

  -- One byte of properties is their length, which is 0.
  single_byte : ltb 1 (length (property_bytes p)) ≡ false → dflt ≡ p.properties
  single_byte e =
      let ps = written (fields p.properties) p.properties.base in
      nothing_written ps p.properties
        (omega (
          arith,
          length-append (groups 3 (length (encodings ps))) (encodings ps),
          length-groups 3 (length (encodings ps)),
          not_longer (length (property_bytes p)) e,
        ))
        (for_each-written p.properties s.expiry s.properties)

  deserialize-property_bytes : deserialize_properties (property_bytes p) ≡ ok (p.properties, [])
  unfolding deserialize_properties
  deserialize-property_bytes = rw append-nil at (
      deserialize_struct-bytes (fields p.properties) p.properties.base s.properties read_property
        dflt p.properties [] (for_each-written p.properties s.expiry s.properties))

  read_properties-bytes :
      (rest : List ℕ) × (read_properties (property_bytes p) ≡ ok (p.properties, rest))
  unfolding read_properties
  read_properties-bytes = elim (Bool-cases (ltb 1 (length (property_bytes p)))) [
    | inl e ↦ ([], simp e deserialize-property_bytes)
    | inr e ↦ (property_bytes p, simp e (ap (λ d. ok (d, property_bytes p)) (single_byte e)))
  ]

  written_fields : deserialize_fields (FixedInt.serialize u8 p.reason ++ property_bytes p) ≡ ok p
  unfolding deserialize_fields
  written_fields =
      let (rest, e) = read_properties-bytes in
      first_byte (FixedInt.serialize u8 p.reason ++ property_bytes p) (
        omega (
          arith,
          length-append (FixedInt.serialize u8 p.reason) (property_bytes p),
          FixedInt.length-serialize u8 p.reason,
        ))
      ∙ rw (deserialize-serialize u8 p.reason (property_bytes p) s.reason, e)

  pub deserialize-body_bytes :
      deserialize (framed_header type_value 0 (body_bytes p)) (body_bytes p) ≡ ok p
  unfolding deserialize
  deserialize-body_bytes =
      rw (cspan-all (body_bytes p)) (elim (Bool-cases (p.reason == 0 && is_default p.properties)) [
        | inl e ↦
            simp e (unfold deserialize_fields in ground (arith, default-eq p.properties s.expiry))
        | inr e ↦ simp e written_fields
      ])
