-- ===== src/Client/Subscriber/Text.antt =====
-- A subscription to a topic filter that is given as a text.
use mqtt.Base.{
  ℕ, ◌<◌, ◌+◌, ◌*◌, ◌%◌, ◌^◌, ◌≡◌, refl, List, [], ◌∷◌, ◌++◌, none, true, ok, ◌>>=◌, arith,
  Result-cases, inl, inr,
}
use mqtt.TopicFilter.{parse_inplace, to_string}
use mqtt.TopicFilter.Split.{split}
use mqtt.TopicFilter.Parse.{is_well_formed, to_string-parse_inplace}
use mqtt.Packet.Subscribe.{Subscribe}
use mqtt.Packet.Subscribe
use mqtt.Packet.Suback.{Suback}
use mqtt.ControlPacket
use mqtt.Client.{Client, subscribe_value, sent, completed}
use mqtt.Client.Find.{find}
use mqtt.Client.Identifiers.{increment}
use mqtt.Client.Subscribing.{
  subscribe_identifier, subscription_flags, subscription_topics, start_subscribe, handle_suback,
}
use mqtt.Client.Subscribing.Flows.{subscribe_acknowledged}
use mqtt.Client.Subscriber.{subscriber_modified, subscriber_to, start_subscriber}

-- The packet that subscribes to one text.
abbrev pub subscribe_to : List ℕ → ℕ → ℕ → Subscribe
subscribe_to text qos identifier = record {
  packet_identifier = identifier;
  properties = Subscribe.dflt;
  topics = record { topic = text; options = qos } ∷ [];
}

-- A subscriber for a topic filter that is given as a text that keeps the rules for wildcards,
-- with a quality of service that fits a byte, under an identifier that no subscription in flight
-- has, and its SUBACK: the SUBSCRIBE that is sent has that text and the quality of service, the
-- receiver gets the reason codes, and all other state but the generator's is as before. The
-- receiver does not call the client.
pub subscriber_acknowledged :
    (ch : ℕ) (cs : List ℕ) (qos receiver : ℕ) (suback : Suback) (c : Client)
    → is_well_formed (split (ch ∷ cs)) ≡ true
    → qos < 2 ^ 8
    → find subscribe_identifier c.next_identifier c.subscribe_messages ≡ none
    → suback.packet_identifier ≡ c.next_identifier
    → (parse_inplace (ch ∷ cs)
        >>= (λ filter. start_subscriber (subscriber_to filter qos) receiver c)
        >>= (λ c'. ok (handle_suback (λ x c1. c1) suback c')))
      ≡ ok (record c {
        next_identifier = increment c.next_identifier;
        effects =
            c.effects
            ++ sent (ControlPacket.subscribe (subscribe_to (ch ∷ cs) qos c.next_identifier))
              ∷ completed (subscribe_value receiver suback.reason_codes)
              ∷ [];
      })
unfolding start_subscriber subscriber_to subscriber_modified start_subscribe subscription_topics
    subscription_flags
subscriber_acknowledged ch cs qos receiver suback c w hq e i =
    let back = to_string-parse_inplace ch cs w in
    elim (Result-cases (parse_inplace (ch ∷ cs))) [
      | inl (filter, p) ↦
          let text : to_string filter ≡ ok (ch ∷ cs) = rw p at back in
          let flags : (qos + 0 * 2 ^ 4) % 2 ^ 8 ≡ qos = omega arith in
          rw (p, text, flags)
            (rw (subscribe_acknowledged (subscribe_to (ch ∷ cs) qos 0) receiver suback c e i) refl)
      | inr (error, p) ↦ absurd (cc (rw p at back))
    ]
