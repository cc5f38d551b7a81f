-- ===== src/Examples/Packets.antt =====
-- The packets.
use mqtt.Base.{
  ℕ, ◌≡◌, refl, List, [], ◌∷◌, ◌++◌, true, false, ok, err, mismatched_set, ◌>>=◌, arith,
  if◌then◌else◌, All, map, bytes_eq, ◌==◌,
}
use mqtt.Wire.FixedInt
use mqtt.Wire.VarlenInt.Encode.{groups}
use mqtt.Wire.Text.{serialize_pair, serialize_string}
use mqtt.Property.{activate_id}
use mqtt.Property.Codec.{encoding}
use mqtt.Properties.{no_base}
use mqtt.Properties.Fields.Out.{user, stored}
use mqtt.Properties.Fields.Struct.{IsSendableStruct}
use mqtt.Header.Laws.{header_bytes}
use mqtt.Packet.Reason
use mqtt.Packet.Puback.{Ack, writes_reason}
use mqtt.Packet.Puback.RoundTrip.{IsSendableAck}
use mqtt.Packet.Publish.{
  with_quality_of_service, with_duplicate, get_quality_of_service, has_duplicate, has_retain,
}
use mqtt.Packet.Publish.Flags.{flags-setters}
use mqtt.Packet.Publish.Properties.{PublishProperties}
use mqtt.Packet.Publish.Properties
use mqtt.Packet.Publish.Properties.Reading.{received}
use mqtt.Packet.Publish.RoundTrip as PublishTrip
use mqtt.Packet.Publish.RoundTrip.{properties_round_trip}
use mqtt.Packet.Subscribe.{Subscribe}
use mqtt.Packet.Subscribe
use mqtt.Packet.Subscribe.RoundTrip.{serialize_body_with_identifier}
use mqtt.ControlPacket.{ControlPacket, puback, pingreq, serialize, parse_body}
use mqtt.ControlPacket.RoundTrip as Trip
use mqtt.ControlPacket.RoundTrip.{
  IsSendable, packet_bytes, packet_header, body_bytes, serialize-packet_bytes,
  parse_body-body_bytes,
}
use mqtt.ControlPacket.Receive.{receive_run}
use mqtt.ControlPacket.Receive.Delivery.{Delivered, receive_run-Delivered}
use mqtt.Client.Sending.{ack_for}
use mqtt.Examples.Chunks.{pieces, pieces-IsSource}

pub no_properties : IsSendableStruct (Reason.fields Reason.dflt) no_base
unfolding activate_id bytes_eq
no_properties = record {
  hold = omega arith;
  base_sendable = record {
    apart = record { distinct = tt; foreign = tt };
    short_users = tt;
    typed_unknown = tt;
  };
  fits = omega arith;
}

abbrev pub an_ack : Ack
an_ack = ack_for 5 0

pub ack-IsSendable : IsSendableAck an_ack
ack-IsSendable = record {
  identifier = omega arith;
  reason = omega arith;
  properties = no_properties;
}

abbrev pub packet-IsSendable : IsSendable (puback an_ack)
unfolding writes_reason FixedInt.serialize
packet-IsSendable = record { sendable_body = ack-IsSendable; fits = omega arith }

abbrev pub ping-IsSendable : IsSendable pingreq
ping-IsSendable = record { sendable_body = tt; fits = omega arith }

serialize-packet_bytes_example :
    serialize 0 (puback an_ack) ≡ ok (packet_bytes (puback an_ack) packet-IsSendable)
serialize-packet_bytes_example =
    serialize-packet_bytes 0 (puback an_ack) packet-IsSendable (omega arith)

parse_body-body_bytes_example :
    parse_body
      (packet_header (puback an_ack) ack-IsSendable)
      (body_bytes (puback an_ack) ack-IsSendable)
    ≡ ok (Trip.received (puback an_ack))
parse_body-body_bytes_example = parse_body-body_bytes (puback an_ack) ack-IsSendable

abbrev pub run : List ControlPacket
run = pingreq ∷ puback an_ack ∷ []

abbrev pub run-IsSendable : All IsSendable run
run-IsSendable = (ping-IsSendable, (packet-IsSendable, tt))

-- A ping and a PUBACK in three pieces, with the first byte in the buffer.
abbrev arriving : List (List ℕ)
arriving = (0 ∷ 64 ∷ []) ∷ (2 ∷ 0 ∷ []) ∷ (5 ∷ 77 ∷ []) ∷ []

receive_run-Delivered_example :
    Delivered pieces pieces-IsSource
      (receive_run pieces 20 2 (192 ∷ []) arriving)
      (map Trip.received run)
      (77 ∷ [])
      arriving
unfolding header_bytes groups writes_reason FixedInt.serialize
receive_run-Delivered_example =
    receive_run-Delivered pieces pieces-IsSource run run-IsSendable (77 ∷ []) 20 (192 ∷ []) arriving
      (omega arith) refl

-- A header of no known type, and a SUBACK whose body is cut.
abbrev garbage : List (List ℕ)
garbage = (144 ∷ 9 ∷ 0 ∷ []) ∷ (255 ∷ 255 ∷ []) ∷ (240 ∷ 255 ∷ 255 ∷ 255 ∷ 255 ∷ []) ∷ []

flags-setters_example :
    ((has_duplicate (with_duplicate true 9) ≡ true)
      × (get_quality_of_service (with_duplicate true 9) ≡ get_quality_of_service 9)
      × (has_retain (with_duplicate true 9) ≡ has_retain 9))
    × ((has_duplicate (with_quality_of_service 1 9) ≡ (if 1 == 0 then false else has_duplicate 9))
        × (get_quality_of_service (with_quality_of_service 1 9) ≡ 1)
        × (has_retain (with_quality_of_service 1 9) ≡ has_retain 9))
flags-setters_example = flags-setters true 1 9 (omega arith) (omega arith)

abbrev subscription : Subscribe
subscription = record {
  packet_identifier = 1;
  properties = record { base = no_base; subscription_identifier = 5 };
  topics = [];
}

serialize_body_with_identifier_example : Subscribe.serialize_body subscription ≡ err mismatched_set
serialize_body_with_identifier_example = serialize_body_with_identifier subscription (omega arith)

-- Properties with one user property and an expiry interval of more than 16 bits.
abbrev properties : PublishProperties
properties = record Properties.dflt {
  base = record no_base { user_property = record { key = 107 ∷ []; value = 118 ∷ [] } ∷ [] };
  message_expiry_interval = 65537;
}

properties-IsSendable : PublishTrip.IsSendable properties
unfolding bytes_eq user encoding groups FixedInt.serialize activate_id stored serialize_pair
    serialize_string
properties-IsSendable = record {
  no_identifier = refl;
  expiry = omega arith;
  alias = omega arith;
  indicator = omega arith;
  short_topic = omega arith;
  short_type = omega arith;
  short_data = omega arith;
  base_sendable = record {
    apart = record { distinct = tt; foreign = tt };
    short_users = ((omega arith, omega arith), tt);
    typed_unknown = tt;
  };
  fits = omega arith;
}

properties_round_trip_example :
    (Properties.serialize properties >>= λ written. Properties.deserialize (written ++ 7 ∷ []))
    ≡ ok (received properties, 7 ∷ [])
properties_round_trip_example = properties_round_trip properties properties-IsSendable (7 ∷ [])
