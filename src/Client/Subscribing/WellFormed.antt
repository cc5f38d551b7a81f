-- ===== src/Client/Subscribing/WellFormed.antt =====
-- The invariant through subscriptions.
use mqtt.Base.{ℕ, List, Option-cases, Result-cases, inl, inr}
use mqtt.Packet.Subscribe.{Subscribe}
use mqtt.Packet.Suback.{Suback}
use mqtt.Packet.Unsubscribe.{Unsubscribe}
use mqtt.Client.{Completion, subscribe_value, unsubscribe_value, completed, Client, emit}
use mqtt.Client.Find.{find, erase}
use mqtt.Client.Identifiers.{increment, increment_bounds, next_packet_identifier}
use mqtt.Client.States.{ConnectionSm}
use mqtt.Client.WellFormed.{IsWellFormed}
use mqtt.Client.Delivering.WellFormed.{Keeps}
use mqtt.Client.Subscribing.{
  SingleSubscription, subscription_topics, start_subscribe, subscribe_with, start_unsubscribe,
  subscribe_identifier, unsubscribe_identifier, handle_suback, handle_unsuback,
}

numbered :
    {P : ConnectionSm → Type 0} (c : Client)
    → IsWellFormed P c
    → IsWellFormed P (record c { next_identifier = increment c.next_identifier })
numbered c w = record {
  identifier = increment_bounds c.next_identifier;
  maximum = w.maximum;
  sends = w.sends;
  in_flight = w.in_flight;
  waiting = w.waiting;
  unreleased = w.unreleased;
  machine = w.machine;
}

pub start_subscribe-Keeps :
    {P : ConnectionSm → Type 0} (modifier : Subscribe → Subscribe) (subs : List SingleSubscription)
    (receiver : ℕ) (c : Client)
    → IsWellFormed P c
    → Keeps P (start_subscribe modifier subs receiver c)
unfolding start_subscribe subscribe_with next_packet_identifier
start_subscribe-Keeps modifier subs receiver c w = elim (Result-cases (subscription_topics subs)) [
  | inl (topics, e) ↦ simp e (numbered c w)
  | inr (x, e) ↦ simp e tt
]

pub start_unsubscribe-IsWellFormed :
    {P : ConnectionSm → Type 0} (unsub : Unsubscribe) (receiver : ℕ) (c : Client)
    → IsWellFormed P c
    → IsWellFormed P (start_unsubscribe unsub receiver c)
unfolding start_unsubscribe next_packet_identifier
start_unsubscribe-IsWellFormed unsub receiver c w = numbered c w

module _ {P : ConnectionSm → Type 0} (resume : Completion → Client → Client)
    (keeps : (x : Completion) (c : Client) → IsWellFormed P c → IsWellFormed P (resume x c)) where
  pub handle_suback-IsWellFormed :
      (suback : Suback) (c : Client)
      → IsWellFormed P c
      → IsWellFormed P (handle_suback resume suback c)
  unfolding handle_suback
  handle_suback-IsWellFormed suback c w =
      let id = suback.packet_identifier in
      elim (Option-cases (find subscribe_identifier id c.subscribe_messages)) [
        | inl e ↦ simp e w
        | inr (m, e) ↦
            let x = subscribe_value m.receiver suback.reason_codes in
            let left = erase subscribe_identifier id c.subscribe_messages in
            simp e (keeps x (emit (completed x) (record c { subscribe_messages = left })) w)
      ]

  pub handle_unsuback-IsWellFormed :
      (unsuback : Suback) (c : Client)
      → IsWellFormed P c
      → IsWellFormed P (handle_unsuback resume unsuback c)
  unfolding handle_unsuback
  handle_unsuback-IsWellFormed unsuback c w =
      let id = unsuback.packet_identifier in
      elim (Option-cases (find unsubscribe_identifier id c.unsubscribe_messages)) [
        | inl e ↦ simp e w
        | inr (m, e) ↦
            let x = unsubscribe_value m.receiver unsuback.reason_codes in
            let left = erase unsubscribe_identifier id c.unsubscribe_messages in
            simp e (keeps x (emit (completed x) (record c { unsubscribe_messages = left })) w)
      ]
