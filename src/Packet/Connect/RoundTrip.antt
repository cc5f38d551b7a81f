-- ===== src/Packet/Connect/RoundTrip.antt =====
-- What a CONNECT packet is read back as.
use mqtt.Base.{
  ℕ, ◌^◌, ◌<◌, ◌≡◌, List, [], ◌++◌, Option, none, some, Bool, true, false, ok, arith, if◌then◌else◌,
  append_assoc, append-nil, Bool-cases, inl, inr, bytes_eq_refl,
}
use mqtt.Wire.FixedInt.{u8, u16, deserialize-serialize}
use mqtt.Wire.FixedInt
use mqtt.Wire.Text.{serialize_string, deserialize_string, serialize_binary}
use mqtt.Wire.Text.RoundTrip.{IsShort, string_round_trip, binary_round_trip}
use mqtt.Properties.Fields.Struct.{struct_bytes}
use mqtt.Packet.Will
use mqtt.Packet.Will.RoundTrip as WillTrip
use mqtt.Packet.Connect.Properties
use mqtt.Packet.Connect.Properties.RoundTrip as PropertiesTrip
use mqtt.Packet.Connect.{
  Connect, has, will_flag, username_flag, password_flag, always_mqtt, check_name, read_will,
  read_username, read_password, deserialize, write_will, username_bytes, password_bytes,
  serialize_body,
}

abbrev pub is_some {ℓ} : {A : Type ℓ} → Option A → Bool
is_some none = false
is_some (some a) = true

abbrev pub IsShortOption : Option (List ℕ) → Type 0
IsShortOption none = Unit {0}
IsShortOption (some s) = IsShort s

-- A packet that can be written and read: numbers within their C++ types, short strings, and flags
-- that announce exactly the user name and the password that are there.
pub record IsSendable (p : Connect) : Type 0 where
  pub version : p.version < 2 ^ 8
  pub flags : p.flags < 2 ^ 8
  pub keep_alive : p.keep_alive < 2 ^ 16
  pub properties : PropertiesTrip.IsSendable p.connect_properties
  pub client_id : IsShort p.client_id
  pub will : WillTrip.IsSendable p.will_properties
  pub will_topic : IsShort p.will_topic
  pub will_payload : IsShort p.will_payload
  pub username : IsShortOption p.username
  pub username_flagged : has p.flags username_flag ≡ is_some p.username
  pub password : IsShortOption p.password
  pub password_flagged : has p.flags password_flag ≡ is_some p.password

-- With no will flag the will is not written. Authentication data with no method are not either.
abbrev pub received : Connect → Connect
received p = record p {
  connect_properties = PropertiesTrip.received p.connect_properties;
  will_properties = if has p.flags will_flag then p.will_properties else Will.dflt;
  will_topic = if has p.flags will_flag then p.will_topic else [];
  will_payload = if has p.flags will_flag then p.will_payload else [];
}

abbrev pub property_bytes : Connect → List ℕ
property_bytes p =
    struct_bytes (Properties.fields p.connect_properties) p.connect_properties.shared.base

abbrev testament_bytes : Connect → List ℕ
testament_bytes p =
    struct_bytes (Will.fields p.will_properties) p.will_properties.base
    ++ (serialize_string p.will_topic ++ serialize_binary p.will_payload)

abbrev pub will_bytes : Connect → List ℕ
will_bytes p = if has p.flags will_flag then testament_bytes p else []

-- The parts of the body, each with all that follows.
abbrev after_will : Connect → List ℕ
after_will p = username_bytes p.username ++ password_bytes p.password

abbrev after_properties : Connect → List ℕ
after_properties p = serialize_string p.client_id ++ (will_bytes p ++ after_will p)

abbrev after_name : Connect → List ℕ
after_name p =
    FixedInt.serialize u8 p.version
    ++ (FixedInt.serialize u8 p.flags
        ++ (FixedInt.serialize u16 p.keep_alive ++ (property_bytes p ++ after_properties p)))

abbrev pub body_bytes : Connect → List ℕ
body_bytes p = serialize_string always_mqtt ++ after_name p

module _ (p : Connect) (s : IsSendable p) where
  write_will-bytes : write_will p ≡ ok (testament_bytes p)
  unfolding write_will
  write_will-bytes = ground (arith, WillTrip.serialize-bytes p.will_properties s.will)

  pub serialize_body-body_bytes : serialize_body p ≡ ok (body_bytes p)
  unfolding serialize_body
  serialize_body-body_bytes = elim (Bool-cases (has p.flags will_flag)) [
    | inl e ↦
        simp (PropertiesTrip.serialize-bytes p.connect_properties s.properties, e, write_will-bytes)
    | inr e ↦ simp (PropertiesTrip.serialize-bytes p.connect_properties s.properties, e)
  ]

  read_will-bytes :
      (rest : List ℕ)
      → read_will p.flags (will_bytes p ++ rest)
        ≡ ok (
          ((received p).will_properties, (received p).will_topic, (received p).will_payload),
          rest,
        )
  unfolding read_will
  read_will-bytes rest = elim (Bool-cases (has p.flags will_flag)) [
    | inl e ↦ simp (
      e,
      append_assoc (struct_bytes (Will.fields p.will_properties) p.will_properties.base)
          (serialize_string p.will_topic ++ serialize_binary p.will_payload) rest,
      append_assoc (serialize_string p.will_topic) (serialize_binary p.will_payload) rest,
      WillTrip.deserialize-bytes p.will_properties s.will
          (serialize_string p.will_topic ++ (serialize_binary p.will_payload ++ rest)),
      string_round_trip p.will_topic (serialize_binary p.will_payload ++ rest) s.will_topic,
      binary_round_trip p.will_payload rest s.will_payload,
    )
    | inr e ↦ simp e
  ]

username-read :
    (flags : ℕ) (o : Option (List ℕ)) (rest : List ℕ)
    → IsShortOption o
    → has flags username_flag ≡ is_some o
    → read_username flags (username_bytes o ++ rest) ≡ ok (o, rest)
unfolding read_username
username-read flags none rest h e = rw e
username-read flags (some t) rest h e = rw (e, string_round_trip t rest h)

password-read :
    (flags : ℕ) (o : Option (List ℕ))
    → IsShortOption o
    → has flags password_flag ≡ is_some o
    → read_password flags (password_bytes o) ≡ ok (o, [])
unfolding read_password
password-read flags none h e = rw e
password-read flags (some bs) h e = rw (e, rw append-nil at (binary_round_trip bs [] h))

name-read :
    (rest : List ℕ)
    → deserialize_string (serialize_string always_mqtt ++ rest) ≡ ok (always_mqtt, rest)
name-read rest = string_round_trip always_mqtt rest (omega arith)

module _ (p : Connect) (s : IsSendable p) where
  -- The body is read to its end.
  pub deserialize-body_bytes : deserialize (body_bytes p) ≡ ok (received p, [])
  unfolding deserialize check_name
  deserialize-body_bytes = simp (
    bytes_eq_refl always_mqtt,
    name-read (after_name p),
    deserialize-serialize u8 p.version _ s.version,
    deserialize-serialize u8 p.flags _ s.flags,
    deserialize-serialize u16 p.keep_alive _ s.keep_alive,
    PropertiesTrip.deserialize-bytes p.connect_properties s.properties (after_properties p),
    string_round_trip p.client_id (will_bytes p ++ after_will p) s.client_id,
    read_will-bytes p s (after_will p),
    username-read p.flags p.username (password_bytes p.password) s.username s.username_flagged,
    password-read p.flags p.password s.password s.password_flagged,
  )
