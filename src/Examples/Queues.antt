-- ===== src/Examples/Queues.antt =====
-- Publishes and unsubscriptions of the client that wait for an acknowledgement.
use mqtt.Base.{ℕ, ◌*◌, ◌≡◌, refl, [], ◌∷◌, arith}
use mqtt.Packet.Publish.{Publish, new_publish, quality_of_service, get_quality_of_service}
use mqtt.Packet.Suback.{Suback}
use mqtt.Packet.Unsubscribe.{Unsubscribe}
use mqtt.Packet.Reason
use mqtt.Properties.{no_base}
use mqtt.ControlPacket
use mqtt.Client.{
  Client, new_client, waiting_puback, waiting_pubrec, publish_value, unsubscribe_value, sent,
  completed,
}
use mqtt.Client.Find.{find, erase}
use mqtt.Client.Identifiers.{increment}
use mqtt.Client.Sending.{ack_for, start_publish, handle_puback}
use mqtt.Client.Sending.Flows.{no_resume, unmodified}
use mqtt.Client.Sending.Queue.{queued_under, queued_then_sent}
use mqtt.Client.Subscribing.{start_unsubscribe, handle_unsuback}
use mqtt.Client.Subscribing.Flows.{unsubscribe_acknowledged}

abbrev message : ℕ → Publish
message qos = record new_publish { header_flags = 2 * qos; topic = 97 ∷ [] }

-- One QoS 1 message is in flight, one QoS 2 message waits.
abbrev busy : Client
busy = record new_client {
  next_identifier = 3;
  server_send_quota = 0;
  server_max_send_quota = 1;
  published_messages =
      record {
        message = record (message 1) { packet_identifier = 1 };
        receiver = 7;
        state = waiting_puback;
      }
      ∷ [];
  queued_publishes = queued_under 2 (message 2) 8 ∷ [];
}

queued_then_sent_example :
    handle_puback no_resume (ack_for 1 0) (start_publish no_resume unmodified (message 1) 9 busy)
    ≡ record busy {
      next_identifier = 4;
      queued_publishes = queued_under 3 (message 1) 9 ∷ [];
      published_messages =
          record {
            message = record (message 2) { packet_identifier = 2 };
            receiver = 8;
            state = waiting_pubrec;
          }
          ∷ [];
      effects =
          completed (publish_value 7 0)
          ∷ sent (ControlPacket.publish (record (message 2) { packet_identifier = 2 }))
          ∷ [];
    }
unfolding quality_of_service get_quality_of_service find erase increment
queued_then_sent_example =
    queued_then_sent (message 1) 9 (ack_for 1 0)
      (record {
        message = record (message 1) { packet_identifier = 1 };
        receiver = 7;
        state = waiting_puback;
      })
      busy (queued_under 2 (message 2) 8) (queued_under 3 (message 1) 9 ∷ []) (omega arith) refl
      (omega arith) refl refl refl

abbrev unsubscribe : Unsubscribe
unsubscribe = record { packet_identifier = 0; properties = no_base; topics = (97 ∷ []) ∷ [] }

abbrev unsuback : Suback
unsuback = record { packet_identifier = 1; properties = Reason.dflt; reason_codes = 0 ∷ [] }

unsubscribe_acknowledged_example :
    handle_unsuback no_resume unsuback (start_unsubscribe unsubscribe 7 new_client)
    ≡ record new_client {
      next_identifier = increment 1;
      effects =
          sent (ControlPacket.unsubscribe (record unsubscribe { packet_identifier = 1 }))
          ∷ completed (unsubscribe_value 7 (0 ∷ []))
          ∷ [];
    }
unfolding find
unsubscribe_acknowledged_example =
    unsubscribe_acknowledged unsubscribe 7 unsuback new_client refl refl
