-- ===== src/Packet/Publish.antt =====
-- include/mqtt5/protocol/publish.hpp: the PUBLISH packet.
pub mod Properties
pub mod Flags
pub mod RoundTrip
use mqtt.Base.{
  ℕ, zero, suc, ◌+◌, ◌*◌, ◌/◌, ◌%◌, ◌^◌, List, [], ◌++◌, Bool, true, false, Result, ok, ◌==◌,
  if◌then◌else◌, ◌>>=◌, not, bit_and,
}
use mqtt.Wire.Fetcher.{Reader, cspan}
use mqtt.Wire.FixedInt.{u16}
use mqtt.Wire.FixedInt
use mqtt.Wire.Text.{serialize_string, deserialize_string}
use mqtt.Header.{Header, get_flags}
use mqtt.Packet.Framing.{serialize_packet}
use Properties.{PublishProperties, dflt}

pub record Publish : Type 0 where
  pub header_flags : ℕ
  pub topic : List ℕ
  pub packet_identifier : ℕ
  pub properties : PublishProperties
  pub payload : List ℕ

abbrev pub type_value : ℕ
type_value = 3

abbrev pub new_publish : Publish
new_publish = record {
  header_flags = 0;
  topic = [];
  packet_identifier = 0;
  properties = dflt;
  payload = [];
}

abbrev pub bool_to_ℕ : Bool → ℕ
bool_to_ℕ b = if b then 1 else 0

unfoldable pub set_payload : List ℕ → Publish → Publish
set_payload bytes p = record p { payload = bytes }

-- The setters and getters of the flags, on the std::uint8_t `header_flags`. A quality of service is
-- the number of its enumerator.
unfoldable pub with_duplicate : Bool → ℕ → ℕ
with_duplicate dup flags = (bit_and flags 7 + bool_to_ℕ dup * 2 ^ 3) % 2 ^ 8

unfoldable pub has_duplicate : ℕ → Bool
has_duplicate flags = not (bit_and flags 8 == 0)

unfoldable pub with_quality_of_service : ℕ → ℕ → ℕ
with_quality_of_service qos flags =
    let flags' = if qos == 0 then with_duplicate false flags else flags in
    (bit_and flags' 9 + qos * 2) % 2 ^ 8

unfoldable pub get_quality_of_service : ℕ → ℕ
get_quality_of_service flags = bit_and (flags / 2) 3

unfoldable pub with_retain : Bool → ℕ → ℕ
with_retain retain flags = (bit_and flags 14 + bool_to_ℕ retain) % 2 ^ 8

unfoldable pub has_retain : ℕ → Bool
has_retain flags = not (bit_and flags 1 == 0)

unfoldable pub set_duplicate : Bool → Publish → Publish
set_duplicate dup p = record p { header_flags = with_duplicate dup p.header_flags }

unfoldable pub set_quality_of_service : ℕ → Publish → Publish
set_quality_of_service qos p = record p {
  header_flags = with_quality_of_service qos p.header_flags;
}

unfoldable pub set_retain : Bool → Publish → Publish
set_retain retain p = record p { header_flags = with_retain retain p.header_flags }

unfoldable pub quality_of_service : Publish → ℕ
quality_of_service p = get_quality_of_service p.header_flags

-- The packet identifier is on the wire exactly if the quality of service is not 0.
unfoldable pub read_identifier : ℕ → Reader ℕ
read_identifier flags span =
    if not (get_quality_of_service flags == 0) then FixedInt.deserialize u16 span else ok (0, span)

unfoldable pub deserialize_fields : ℕ → List ℕ → Result Publish
unfolding read_identifier
deserialize_fields flags span = do
  (topic, span') ← deserialize_string span
  (packet_identifier, span'') ← read_identifier flags span'
  (properties, rest) ← Properties.deserialize span''
  ok (record {
    header_flags = flags;
    topic = topic;
    packet_identifier = packet_identifier;
    properties = properties;
    payload = rest;
  })

unfoldable pub deserialize : Header → List ℕ → Result Publish
deserialize hdr fetched = do
  span ← cspan hdr.remaining_length fetched
  deserialize_fields (get_flags hdr.type_flags) span

-- The identifier is written if it is not 0.
unfoldable pub serialize_body : Publish → Result (List ℕ)
serialize_body p = do
  property_bytes ← Properties.serialize p.properties
  ok (
      serialize_string p.topic
      ++ ((if not (p.packet_identifier == 0)
            then FixedInt.serialize u16 p.packet_identifier
            else [])
          ++ (property_bytes ++ p.payload)))

unfoldable pub serialize : ℕ → Publish → Result (List ℕ)
serialize indeterminate p =
    serialize_packet indeterminate type_value p.header_flags (serialize_body p)
