-- ===== src/Examples/Clients.antt =====
-- The client.
use mqtt.Base.{
  ℕ, ◌+◌, ◌*◌, ◌/◌, ◌%◌, ◌^◌, ◌<◌, ◌≡◌, refl, [], ◌∷◌, Bool, true, false, ok, ◌>>=◌, arith, map,
  ◌==◌, bytes_eq,
}
use mqtt.TopicFilter.{parse_inplace, is_valid_level, matches, parse_loop, matches_n_levels}
use mqtt.Properties.Fields.{bool_to_ℕ}
use mqtt.Packet.Publish.{Publish, new_publish, quality_of_service, get_quality_of_service}
use mqtt.Packet.Connack.{Connack}
use mqtt.Packet.Connack.Properties as ConnackProperties
use mqtt.Packet.Connect.RoundTrip.{is_some}
use mqtt.Packet.Suback.{Suback}
use mqtt.Packet.Reason
use mqtt.ControlPacket.{connack, publish}
use mqtt.ControlPacket
use mqtt.Client.{
  Client, new_client, default_options, ConnectOptions, FilteredSubscription, Completion,
  message_value, publish_value, subscribe_value, sent, completed,
}
use mqtt.Client.Find.{find}
use mqtt.Client.Identifiers.{increment, after_calls, after_calls-cycle}
use mqtt.Client.Sending.{ack_for, start_publish, handle_puback, handle_pubrec, handle_pubcomp}
use mqtt.Client.Sending.Flows.{qos1_acknowledged, qos2_acknowledged}
use mqtt.Client.Delivering.{deliver_to_publish_waiters, handle_pubrel}
use mqtt.Client.Delivering.Once.{OnlySent, handle_publishes, exactly_once}
use mqtt.Client.Delivering.Waiters.{
  no_resume, not_picked, picked_receivers, deliver_to_publish_waiters-picked,
}
use mqtt.Client.Subscribing.{SingleSubscription, subscription_flags, handle_suback}
use mqtt.TopicFilter.Split.{split}
use mqtt.Client.Subscriber.{subscriber_to, start_subscriber}
use mqtt.Client.Subscriber.Text.{subscribe_to, subscriber_acknowledged}
use mqtt.Client.Subscribing.Flows.{subscription_flags-bits}
use mqtt.Client.Connecting.{connect_packet}
use mqtt.Client.Connecting.Laws.{Announces, connect_packet-Announces}

abbrev message : ℕ → Publish
message qos = record new_publish { header_flags = 2 * qos; topic = 97 ∷ [] }

abbrev same : Completion → Client → Client
same x c = c

abbrev unchanged : Publish → Publish
unchanged p = p

after_calls-cycle_example : after_calls 65535 1 ≡ 65535 % 65535 + 1
after_calls-cycle_example = after_calls-cycle 65535

qos1_acknowledged_example :
    handle_puback same (ack_for 1 0) (start_publish same unchanged (message 1) 7 new_client)
    ≡ record new_client {
      next_identifier = increment 1;
      effects =
          sent (ControlPacket.publish (record (message 1) { packet_identifier = 1 }))
          ∷ completed (publish_value 7 0)
          ∷ [];
    }
unfolding quality_of_service get_quality_of_service find
qos1_acknowledged_example =
    qos1_acknowledged (message 1) 7 new_client refl (omega arith) (omega arith) (ack_for 1 0) refl
      refl (omega arith) refl

qos2_acknowledged_example :
    handle_pubcomp same
      (ack_for 1 0)
      (handle_pubrec same (ack_for 1 0) (start_publish same unchanged (message 2) 7 new_client))
    ≡ record new_client {
      next_identifier = increment 1;
      server_send_quota = 65534;
      effects =
          sent (ControlPacket.publish (record (message 2) { packet_identifier = 1 }))
          ∷ sent (ControlPacket.pubrel (ack_for 1 0))
          ∷ completed (publish_value 7 0)
          ∷ [];
    }
unfolding quality_of_service get_quality_of_service find
qos2_acknowledged_example =
    qos2_acknowledged (message 2) 7 new_client refl (omega arith) (omega arith) (ack_for 1 0)
      (ack_for 1 0) refl refl (omega arith) refl

abbrev first : Publish
first = record (message 2) { packet_identifier = 3 }

abbrev again : Publish
again = record first { payload = 1 ∷ [] }

exactly_once_example :
    (c' : Client) × ((handle_publishes same (first ∷ again ∷ []) new_client
        >>= handle_pubrel same (ack_for 3 0))
      ≡ deliver_to_publish_waiters same first c')
    × OnlySent new_client c' []
unfolding quality_of_service get_quality_of_service find
exactly_once_example =
    exactly_once same first (again ∷ []) (ack_for 3 0) new_client refl ((refl, refl), tt) refl refl

-- One receiver waits for `a`, and one for `b`.
abbrev waiting : Client
waiting = record new_client {
  publish_waiters =
      record { filter = (97 ∷ []) ∷ []; receivers = 7 ∷ [] }
      ∷ record { filter = (98 ∷ []) ∷ []; receivers = 8 ∷ [] }
      ∷ [];
}

abbrev waits_for_a : FilteredSubscription → Bool
waits_for_a w = elim w.receivers [ [] ↦ false | r ∷ rs ↦ r == 7 ]

deliver_to_publish_waiters-picked_example :
    deliver_to_publish_waiters no_resume (message 0) waiting
    ≡ ok (record waiting {
      publish_waiters = not_picked waits_for_a waiting.publish_waiters;
      effects =
          map
            (λ rx. completed (message_value rx (message 0)))
            (picked_receivers waits_for_a waiting.publish_waiters);
    })
unfolding matches parse_loop matches_n_levels bytes_eq
deliver_to_publish_waiters-picked_example =
    deliver_to_publish_waiters-picked (message 0) waits_for_a waiting (refl, (refl, tt))

abbrev subscription : SingleSubscription
subscription = record {
  topic = (97 ∷ []) ∷ [];
  quality_of_service = 2;
  no_local = true;
  retain_as_published = false;
  subscription_retain_handling = 1;
}

subscription_flags-bits_example :
    (subscription_flags subscription < 2 ^ 6)
    × (subscription_flags subscription % 4 ≡ 2)
    × (subscription_flags subscription / 4 % 2 ≡ bool_to_ℕ true)
    × (subscription_flags subscription / 8 % 2 ≡ bool_to_ℕ false)
    × (subscription_flags subscription / 16 ≡ 1)
subscription_flags-bits_example = subscription_flags-bits subscription (omega arith) (omega arith)

abbrev suback : Suback
suback = record { packet_identifier = 1; properties = Reason.dflt; reason_codes = 2 ∷ [] }

subscriber_acknowledged_example :
    (parse_inplace (97 ∷ 47 ∷ 35 ∷ [])
      >>= (λ filter. start_subscriber (subscriber_to filter 1) 7 new_client)
      >>= (λ c. ok (handle_suback same suback c)))
    ≡ ok (record new_client {
      next_identifier = increment 1;
      effects =
          sent (ControlPacket.subscribe (subscribe_to (97 ∷ 47 ∷ 35 ∷ []) 1 1))
          ∷ completed (subscribe_value 7 (2 ∷ []))
          ∷ [];
    })
unfolding find split is_valid_level bytes_eq
subscriber_acknowledged_example =
    subscriber_acknowledged 97 (47 ∷ 35 ∷ []) 1 7 suback new_client refl (omega arith) refl refl

abbrev with_user : ConnectOptions
with_user = record default_options { username = 117 ∷ [] }

connect_packet-Announces_example :
    Announces
      (connect_packet with_user).flags
      false
      true
      (is_some (connect_packet with_user).username)
      (is_some (connect_packet with_user).password)
connect_packet-Announces_example = connect_packet-Announces with_user

abbrev a_connack : Connack
a_connack = record { flags = 0; reason_code = 0; properties = ConnackProperties.dflt }
