-- ===== src/Client/Subscribing.antt =====
-- include/mqtt5/detail/subscribe_sender.hpp and unsubscribe_sender.hpp, and the handlers of
-- include/mqtt5/client.hpp for their acknowledgements.
pub mod Flows
pub mod WellFormed
use mqtt.Base.{
  ℕ, ◌+◌, ◌*◌, ◌%◌, ◌^◌, List, [], ◌∷◌, ◌++◌, Bool, Result, ok, ◌>>=◌, if◌then◌else◌, option_case,
}
use mqtt.TopicFilter.{Level, to_string}
use mqtt.Properties.{no_base}
use mqtt.Packet.Subscribe.{Subscribe, FilterOptions}
use mqtt.Packet.Subscribe
use mqtt.Packet.Suback.{Suback}
use mqtt.Packet.Unsubscribe.{Unsubscribe}
use mqtt.ControlPacket
use mqtt.Client.{
  InFlightSubscribe, InFlightUnsubscribe, Completion, subscribe_value, unsubscribe_value, Client,
  send_message,
}
use mqtt.Client.Find.{find, erase}
use mqtt.Client.Identifiers.{next_packet_identifier}
use mqtt.Client.Sending.{complete}

-- `single_subscription`. The retain handling is the number of its enumerator.
pub record SingleSubscription : Type 0 where
  pub topic : List Level
  pub quality_of_service : ℕ
  pub no_local : Bool
  pub retain_as_published : Bool
  pub subscription_retain_handling : ℕ

-- The flags, a std::uint8_t at each step.
unfoldable pub subscription_flags : SingleSubscription → ℕ
subscription_flags s =
    let flags1 =
      if s.no_local then (s.quality_of_service + 0x04) % 2 ^ 8 else s.quality_of_service in
    let flags2 = if s.retain_as_published then (flags1 + 0x08) % 2 ^ 8 else flags1 in
    (flags2 + s.subscription_retain_handling * 2 ^ 4) % 2 ^ 8

-- The loop of `start`.
unfoldable pub subscription_topics : List SingleSubscription → Result (List FilterOptions)
unfolding subscription_flags to_string
subscription_topics [] = ok []
subscription_topics (s ∷ subs) = do
  topic ← to_string s.topic
  topics ← subscription_topics subs
  ok (record { topic = topic; options = subscription_flags s } ∷ topics)

-- The message under the next identifier is sent and kept.
unfoldable pub subscribe_with : Subscribe → ℕ → Client → Client
unfolding next_packet_identifier
subscribe_with message receiver c =
    let (identifier, c') = next_packet_identifier c in
    let identified = record message { packet_identifier = identifier } in
    let sent = send_message (ControlPacket.subscribe identified) c' in
    record sent {
      subscribe_messages =
          sent.subscribe_messages ++ record { message = identified; receiver = receiver } ∷ [];
    }

unfoldable pub start_subscribe :
    (Subscribe → Subscribe) → List SingleSubscription → ℕ → Client → Result Client
unfolding subscription_topics subscribe_with
start_subscribe modifier subs receiver c = do
  topics ← subscription_topics subs
  ok (
      subscribe_with
        (modifier (record { packet_identifier = 0; properties = Subscribe.dflt; topics = topics }))
        receiver c)

unfoldable pub start_unsubscribe : Unsubscribe → ℕ → Client → Client
unfolding next_packet_identifier
start_unsubscribe unsub receiver c =
    let (identifier, c') = next_packet_identifier c in
    let identified = record unsub { packet_identifier = identifier } in
    let sent = send_message (ControlPacket.unsubscribe identified) c' in
    record sent {
      unsubscribe_messages =
          sent.unsubscribe_messages ++ record { message = identified; receiver = receiver } ∷ [];
    }

abbrev pub subscribe_identifier : InFlightSubscribe → ℕ
subscribe_identifier m = m.message.packet_identifier

abbrev pub unsubscribe_identifier : InFlightUnsubscribe → ℕ
unsubscribe_identifier m = m.message.packet_identifier

module _ (resume : Completion → Client → Client) where
  unfoldable pub handle_suback : Suback → Client → Client
  unfolding find erase
  handle_suback suback c =
      let id = suback.packet_identifier in
      option_case (find subscribe_identifier id c.subscribe_messages) c (λ to_finish.
        complete resume (subscribe_value to_finish.receiver suback.reason_codes)
          (record c { subscribe_messages = erase subscribe_identifier id c.subscribe_messages }))

  unfoldable pub handle_unsuback : Suback → Client → Client
  unfolding find erase
  handle_unsuback unsuback c =
      let id = unsuback.packet_identifier in
      option_case (find unsubscribe_identifier id c.unsubscribe_messages) c (λ to_finish.
        complete resume (unsubscribe_value to_finish.receiver unsuback.reason_codes) (record c {
          unsubscribe_messages = erase unsubscribe_identifier id c.unsubscribe_messages;
        }))
