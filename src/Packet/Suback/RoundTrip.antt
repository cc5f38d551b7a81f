-- ===== src/Packet/Suback/RoundTrip.antt =====
-- SUBACK and UNSUBACK packets are read back as they were, and a body of two bytes is read past its
-- end.
use mqtt.Base.{ℕ, ◌^◌, ◌<◌, ◌≡◌, refl, List, [], ◌∷◌, ◌++◌, ok, err, arith, undefined_read}
use mqtt.Wire.Fetcher.{cspan, cspan-all, read_span, consume}
use mqtt.Wire.FixedInt.{u16, deserialize-serialize}
use mqtt.Wire.FixedInt
use mqtt.Wire.VarlenInt
use mqtt.Properties
use mqtt.Properties.Fields.Struct.{struct_bytes, deserialize_struct}
use mqtt.Packet.Framing.{framed_header}
use mqtt.Packet.Reason
use mqtt.Packet.Reason.RoundTrip.{IsSendable, serialize-bytes, deserialize-bytes}
use mqtt.Packet.Suback.{Suback, deserialize_fields, deserialize, serialize_body}

pub record IsSendableSuback (p : Suback) : Type 0 where
  pub identifier : p.packet_identifier < 2 ^ 16
  pub properties : IsSendable p.properties

abbrev pub body_bytes : Suback → List ℕ
body_bytes p =
    FixedInt.serialize u16 p.packet_identifier
    ++ (struct_bytes (Reason.fields p.properties) p.properties.base ++ p.reason_codes)

module _ (p : Suback) (s : IsSendableSuback p) where
  pub serialize_body-body_bytes : serialize_body p ≡ ok (body_bytes p)
  unfolding serialize_body
  serialize_body-body_bytes = ground (arith, serialize-bytes p.properties s.properties)

  pub deserialize-body_bytes :
      (type : ℕ) → deserialize (framed_header type 0 (body_bytes p)) (body_bytes p) ≡ ok p
  unfolding deserialize deserialize_fields
  deserialize-body_bytes type = ground (
    arith,
    cspan-all (body_bytes p),
    deserialize-serialize u16 p.packet_identifier
        (struct_bytes (Reason.fields p.properties) p.properties.base ++ p.reason_codes)
        s.identifier,
    deserialize-bytes p.properties s.properties p.reason_codes,
  )

-- A body that ends behind the packet identifier makes the reader of the properties dereference the
-- end of the data: `varlen_int::deserialize` looks at its first byte unasked.
pub short_body_is_overread :
    (type_flags a b : ℕ)
    → deserialize (record { type_flags = type_flags; remaining_length = 2 }) (a ∷ b ∷ [])
      ≡ err undefined_read
unfolding deserialize deserialize_fields cspan FixedInt.deserialize read_span consume
    Reason.deserialize deserialize_struct Properties.deserialize VarlenInt.deserialize
    VarlenInt.deserialize_loop
short_body_is_overread type_flags a b = refl
