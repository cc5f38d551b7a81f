-- ===== src/Client/Subscribing/Flows.antt =====
-- A subscription and its acknowledgement.
use mqtt.Base.{ℕ, ◌/◌, ◌%◌, ◌^◌, ◌<◌, ◌≡◌, [], ◌∷◌, ◌++◌, arith, append_assoc, none}
use mqtt.Properties.Fields.{bool_to_ℕ}
use mqtt.Packet.Subscribe.{Subscribe}
use mqtt.Packet.Suback.{Suback}
use mqtt.Packet.Unsubscribe.{Unsubscribe}
use mqtt.ControlPacket
use mqtt.Client.{
  subscribe_value, unsubscribe_value, completed, sent, Client, InFlightSubscribe,
  InFlightUnsubscribe,
}
use mqtt.Client.Find.{find, find-append_new, erase-append_new}
use mqtt.Client.Identifiers.{increment, next_packet_identifier}
use mqtt.Client.Subscribing.{
  SingleSubscription, subscription_flags, subscribe_with, subscribe_identifier, handle_suback,
  start_unsubscribe, unsubscribe_identifier, handle_unsuback,
}

-- The options of a subscription are packed so that the quality of service (below 4), the two
-- switches and the retain handling (below 4) can each be read from their bits.
pub subscription_flags-bits :
    (s : SingleSubscription)
    → s.quality_of_service < 4
    → s.subscription_retain_handling < 4
    → let flags = subscription_flags s in
      (flags < 2 ^ 6)
      × (flags % 4 ≡ s.quality_of_service)
      × (flags / 4 % 2 ≡ bool_to_ℕ s.no_local)
      × (flags / 8 % 2 ≡ bool_to_ℕ s.retain_as_published)
      × (flags / 16 ≡ s.subscription_retain_handling)
unfolding subscription_flags
subscription_flags-bits s hq hr = ground arith

-- A SUBSCRIBE under an identifier that no subscription in flight has, and its SUBACK: the packet
-- is sent, the receiver gets the reason codes, and all other state but the generator's is as
-- before. The receiver does not call the client.
pub subscribe_acknowledged :
    (message : Subscribe) (receiver : ℕ) (suback : Suback) (c : Client)
    → find subscribe_identifier c.next_identifier c.subscribe_messages ≡ none
    → suback.packet_identifier ≡ c.next_identifier
    → handle_suback (λ x c'. c') suback (subscribe_with message receiver c) ≡ record c {
      next_identifier = increment c.next_identifier;
      effects =
          c.effects
          ++ sent
              (ControlPacket.subscribe (record message { packet_identifier = c.next_identifier }))
            ∷ completed (subscribe_value receiver suback.reason_codes)
            ∷ [];
    }
unfolding handle_suback subscribe_with next_packet_identifier
subscribe_acknowledged message receiver suback c e i =
    let new : InFlightSubscribe = record {
      message = record message { packet_identifier = c.next_identifier };
      receiver = receiver;
    } in
    simp (
      i,
      find-append_new subscribe_identifier c.subscribe_messages new e,
      erase-append_new subscribe_identifier c.subscribe_messages new e,
      append_assoc,
    )

-- An UNSUBSCRIBE under an identifier that no other in flight has, and its UNSUBACK: the packet
-- is sent, the receiver gets the reason codes, and all other state but the generator's is as
-- before. The receiver does not call the client.
pub unsubscribe_acknowledged :
    (unsub : Unsubscribe) (receiver : ℕ) (unsuback : Suback) (c : Client)
    → find unsubscribe_identifier c.next_identifier c.unsubscribe_messages ≡ none
    → unsuback.packet_identifier ≡ c.next_identifier
    → handle_unsuback (λ x c'. c') unsuback (start_unsubscribe unsub receiver c) ≡ record c {
      next_identifier = increment c.next_identifier;
      effects =
          c.effects
          ++ sent
              (ControlPacket.unsubscribe (record unsub { packet_identifier = c.next_identifier }))
            ∷ completed (unsubscribe_value receiver unsuback.reason_codes)
            ∷ [];
    }
unfolding handle_unsuback start_unsubscribe next_packet_identifier
unsubscribe_acknowledged unsub receiver unsuback c e i =
    let new : InFlightUnsubscribe = record {
      message = record unsub { packet_identifier = c.next_identifier };
      receiver = receiver;
    } in
    simp (
      i,
      find-append_new unsubscribe_identifier c.unsubscribe_messages new e,
      erase-append_new unsubscribe_identifier c.unsubscribe_messages new e,
      append_assoc,
    )
