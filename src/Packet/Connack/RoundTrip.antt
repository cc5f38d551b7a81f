-- ===== src/Packet/Connack/RoundTrip.antt =====
-- What a CONNACK packet is read back as.
use mqtt.Base.{ℕ, ◌^◌, ◌<◌, ◌≡◌, List, [], ◌++◌, ok, append-nil}
use mqtt.Wire.FixedInt.{u8, deserialize-serialize}
use mqtt.Wire.FixedInt
use mqtt.Properties.Fields.Struct.{struct_bytes}
use mqtt.Packet.Connack.Properties
use mqtt.Packet.Connack.Properties.RoundTrip as PropertiesTrip
use mqtt.Packet.Connack.{Connack, serialize_body, deserialize}

pub record IsSendable (p : Connack) : Type 0 where
  pub flags : p.flags < 2 ^ 8
  pub reason_code : p.reason_code < 2 ^ 8
  pub properties : PropertiesTrip.IsSendable p.properties

abbrev pub received : Connack → Connack
received p = record p { properties = PropertiesTrip.received p.properties }

abbrev pub property_bytes : Connack → List ℕ
property_bytes p = struct_bytes (Properties.fields p.properties) p.properties.shared.base

abbrev pub body_bytes : Connack → List ℕ
body_bytes p =
    FixedInt.serialize u8 p.flags ++ (FixedInt.serialize u8 p.reason_code ++ property_bytes p)

module _ (p : Connack) (s : IsSendable p) where
  pub serialize_body-body_bytes : serialize_body p ≡ ok (body_bytes p)
  unfolding serialize_body
  serialize_body-body_bytes = simp (PropertiesTrip.serialize-bytes p.properties s.properties)

  -- The body is read to its end.
  pub deserialize-body_bytes : deserialize (body_bytes p) ≡ ok (received p, [])
  unfolding deserialize
  deserialize-body_bytes =
      let last : Properties.deserialize (property_bytes p)
          ≡ ok (PropertiesTrip.received p.properties, []) =
        rw append-nil at (PropertiesTrip.deserialize-bytes p.properties s.properties []) in
      simp (
        deserialize-serialize u8 p.flags _ s.flags,
        deserialize-serialize u8 p.reason_code _ s.reason_code,
        last,
      )
