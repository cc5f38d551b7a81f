-- ===== src/Packet/Connect.antt =====
-- include/mqtt5/protocol/connect.hpp: CONNECT.
pub mod Properties
pub mod RoundTrip
use mqtt.Base.{
  ℕ, ◌+◌, List, [], ◌∷◌, ◌++◌, Option, none, some, Bool, Result, ok, err, not_mqtt, ◌==◌,
  if◌then◌else◌, not, bit_and, bit_or, bytes_eq,
}
use mqtt.Base
use mqtt.Wire.Fetcher.{Reader, pure, ◌>>=◌}
use mqtt.Wire.FixedInt.{u8, u16}
use mqtt.Wire.FixedInt
use mqtt.Wire.Text.{serialize_string, deserialize_string, serialize_binary, deserialize_binary}
use mqtt.Packet.Framing.{serialize_packet}
use mqtt.Packet.Will.{WillProperties}
use mqtt.Packet.Will
use Properties.{ConnectProperties}

abbrev pub type_value : ℕ
type_value = 1

abbrev pub clean_start_flag : ℕ
clean_start_flag = 2

abbrev pub will_flag : ℕ
will_flag = 4

abbrev pub will_retain_flag : ℕ
will_retain_flag = 0x20

abbrev pub password_flag : ℕ
password_flag = 0x40

abbrev pub username_flag : ℕ
username_flag = 0x80

abbrev pub will_qos_1 : ℕ
will_qos_1 = 0x08

abbrev pub will_qos_2 : ℕ
will_qos_2 = 0x10

pub record Connect : Type 0 where
  pub version : ℕ
  pub flags : ℕ
  pub keep_alive : ℕ
  pub connect_properties : ConnectProperties
  pub client_id : List ℕ
  pub will_properties : WillProperties
  pub will_topic : List ℕ
  pub will_payload : List ℕ
  pub username : Option (List ℕ)
  pub password : Option (List ℕ)

abbrev pub new_connect : Connect
new_connect = record {
  version = 5;
  flags = 0;
  keep_alive = 240;
  connect_properties = Properties.dflt;
  client_id = [];
  will_properties = Will.dflt;
  will_topic = [];
  will_payload = [];
  username = none;
  password = none;
}

-- Another quality than 0, 1 and 2 adds no bit, as the switch has no case for it.
unfoldable pub set_will_qos : ℕ → Connect → Connect
set_will_qos qos p =
    let new_flags = bit_and p.flags 0b11100111 in
    record p {
      flags =
          if qos == 1
          then bit_or new_flags will_qos_1
          else if qos == 2
          then bit_or new_flags will_qos_2
          else new_flags;
    }

-- "MQTT"
abbrev pub always_mqtt : List ℕ
always_mqtt = b'M' ∷ b'Q' ∷ b'T' ∷ b'T' ∷ []

abbrev pub has : ℕ → ℕ → Bool
has flags flag = not (bit_and flags flag == 0)

unfoldable pub check_name : List ℕ → Reader (Unit {0})
check_name name span = if bytes_eq name always_mqtt then ok (tt, span) else err not_mqtt

abbrev pub Testament : Type 0
Testament = WillProperties × List ℕ × List ℕ

read_testament : Reader Testament
read_testament = do
  will_properties ← Will.deserialize
  will_topic ← deserialize_string
  will_payload ← deserialize_binary
  pure (will_properties, will_topic, will_payload)

-- The parts that the flags ask for. A packet is read into a new object, which keeps its defaults where
-- a part is not there.
unfoldable pub read_will : ℕ → Reader Testament
unfolding read_testament
read_will flags span =
    if has flags will_flag then read_testament span else ok ((Will.dflt, [], []), span)

read_some : Reader (List ℕ) → Reader (Option (List ℕ))
read_some p = do v ← p; pure (some v)

unfoldable pub read_username : ℕ → Reader (Option (List ℕ))
unfolding read_some
read_username flags span =
    if has flags username_flag then read_some deserialize_string span else ok (none, span)

unfoldable pub read_password : ℕ → Reader (Option (List ℕ))
unfolding read_some
read_password flags span =
    if has flags password_flag then read_some deserialize_binary span else ok (none, span)

unfoldable pub deserialize : Reader Connect
deserialize = do
  name ← deserialize_string
  checked ← check_name name
  version ← FixedInt.deserialize u8
  flags ← FixedInt.deserialize u8
  keep_alive ← FixedInt.deserialize u16
  connect_properties ← Properties.deserialize
  client_id ← deserialize_string
  will ← read_will flags
  username ← read_username flags
  password ← read_password flags
  pure (record {
    version = version;
    flags = flags;
    keep_alive = keep_alive;
    connect_properties = connect_properties;
    client_id = client_id;
    will_properties = will.0;
    will_topic = will.1;
    will_payload = will.2;
    username = username;
    password = password;
  })

unfoldable pub write_will : Connect → Result (List ℕ)
write_will p = Base.◌>>=◌ (Will.serialize p.will_properties) λ property_bytes.
    ok (property_bytes ++ (serialize_string p.will_topic ++ serialize_binary p.will_payload))

abbrev pub username_bytes : Option (List ℕ) → List ℕ
username_bytes none = []
username_bytes (some s) = serialize_string s

abbrev pub password_bytes : Option (List ℕ) → List ℕ
password_bytes none = []
password_bytes (some bs) = serialize_binary bs

-- The will is written if its flag is set, the user name and the password if they are there.
unfoldable pub serialize_body : Connect → Result (List ℕ)
serialize_body p = Base.◌>>=◌ (Properties.serialize p.connect_properties) λ property_bytes.
    Base.◌>>=◌ (if has p.flags will_flag then write_will p else ok []) λ will_bytes. ok (
      serialize_string always_mqtt
      ++ (FixedInt.serialize u8 p.version
          ++ (FixedInt.serialize u8 p.flags
              ++ (FixedInt.serialize u16 p.keep_alive
                  ++ (property_bytes
                      ++ (serialize_string p.client_id
                          ++ (will_bytes
                              ++ (username_bytes p.username ++ password_bytes p.password))))))))

unfoldable pub serialize : ℕ → Connect → Result (List ℕ)
serialize indeterminate p = serialize_packet indeterminate type_value 0 (serialize_body p)
