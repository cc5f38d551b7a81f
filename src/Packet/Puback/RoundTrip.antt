-- ===== src/Packet/Puback/RoundTrip.antt =====
-- What an acknowledgement is read back as.
use mqtt.Base.{
  ℕ, ◌+◌, ◌^◌, ◌<◌, ◌≤◌, ◌≡◌, List, [], ◌++◌, ok, arith, false, if◌then◌else◌, length,
  length-append, append-nil,
}
use mqtt.Wire.FixedInt.{u8, u16, deserialize-serialize, length-serialize}
use mqtt.Wire.FixedInt
use mqtt.Wire.VarlenInt.Encode.{groups, length-groups}
use mqtt.Properties.Fields.Written.{written}
use mqtt.Properties.Fields.Struct.{struct_bytes}
use mqtt.Properties.RoundTrip.{encodings}
use mqtt.Packet.Framing.{framed_header}
use mqtt.Packet.Reason
use mqtt.Packet.Reason.RoundTrip.{IsSendable, serialize-bytes, deserialize-bytes}
use mqtt.Packet.Puback.{
  Ack, AckKind, type_value, flags, read_reason, read_properties, deserialize, writes_reason,
  serialize_reason, serialize_body,
}

pub record IsSendableAck (p : Ack) : Type 0 where
  pub identifier : p.packet_identifier < 2 ^ 16
  pub reason : p.reason_code < 2 ^ 8
  pub properties : IsSendable p.properties

-- Where neither a reason code nor a known property asks for it, unknown properties are not written.
abbrev pub received_ack : Ack → Ack
received_ack p = if writes_reason p then p else record p { properties = Reason.dflt }

abbrev pub property_bytes : Ack → List ℕ
property_bytes p = struct_bytes (Reason.fields p.properties) p.properties.base

abbrev pub reason_bytes : Ack → List ℕ
reason_bytes p =
    if writes_reason p then FixedInt.serialize u8 p.reason_code ++ property_bytes p else []

abbrev pub body_bytes : Ack → List ℕ
body_bytes p = FixedInt.serialize u16 p.packet_identifier ++ reason_bytes p

module _ (p : Ack) (s : IsSendableAck p) where
  pub serialize_body-body_bytes : serialize_body p ≡ ok (body_bytes p)
  unfolding serialize_body serialize_reason
  serialize_body-body_bytes = ground (arith, serialize-bytes p.properties s.properties)

  some_property_bytes : 1 ≤ length (property_bytes p)
  some_property_bytes = omega (
    arith,
    length-append
        (groups 3 (length (encodings (written (Reason.fields p.properties) p.properties.base))))
        (encodings (written (Reason.fields p.properties) p.properties.base)),
    length-groups 3 (length (encodings (written (Reason.fields p.properties) p.properties.base))),
  )

  length-body_bytes :
      length (body_bytes p) ≡ (if writes_reason p then 3 + length (property_bytes p) else 2)
  length-body_bytes = ground (
    arith,
    length-append (FixedInt.serialize u16 p.packet_identifier) (reason_bytes p),
    length-serialize u16 p.packet_identifier,
    length-append (FixedInt.serialize u8 p.reason_code) (property_bytes p),
    length-serialize u8 p.reason_code,
  )

  not-writes_reason : writes_reason p ≡ false → p.reason_code ≡ 0
  unfolding writes_reason
  not-writes_reason e = ground arith

  pub deserialize-body_bytes :
      (kind : AckKind)
      → deserialize (framed_header (type_value kind) (flags kind) (body_bytes p)) (body_bytes p)
        ≡ ok (received_ack p)
  unfolding deserialize read_reason read_properties
  deserialize-body_bytes kind = ground (
    arith,
    length-body_bytes,
    some_property_bytes,
    not-writes_reason,
    deserialize-serialize u16 p.packet_identifier (reason_bytes p) s.identifier,
    deserialize-serialize u8 p.reason_code (property_bytes p) s.reason,
    append-nil (property_bytes p),
    deserialize-bytes p.properties s.properties [],
  )
