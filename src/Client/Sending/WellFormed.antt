-- ===== src/Client/Sending/WellFormed.antt =====
-- The invariant through a publish and its acknowledgements.
use mqtt.Base.{
  ℕ, ◌+◌, ◌%◌, ◌^◌, ◌<◌, ◌≡◌, refl, List, [], ◌∷◌, ◌==◌, ltb, if◌then◌else◌, arith, All, All-append,
  Bool-cases, Option-cases, inl, inr,
}
use mqtt.Packet.Publish.{Publish, quality_of_service}
use mqtt.Packet.Puback.{Ack}
use mqtt.Client.{
  PublishState, waiting_puback, waiting_pubrec, waitiing_pubcomp, QueuedPublish, Completion,
  publish_value, publish_done, completed, Client, emit, send_message,
}
use mqtt.ControlPacket
use mqtt.Client.Find.{find, All-erase}
use mqtt.Client.Identifiers.{increment, increment_bounds, next_packet_identifier}
use mqtt.Client.States.{ConnectionSm}
use mqtt.Client.WellFormed.{IsIdentifier, Agrees, IsInFlight, IsQueued, IsWellFormed}
use mqtt.Client.Sending.{
  identifier_of, transmit, send_next, taken_out, maybe_send_queued_publish, start_publish,
  finish_puback, handle_puback, handle_pubcomp,
}

-- The client at the call of a receiver.
abbrev pub completing : Completion → Client → Client
completing x c = emit (completed x) c

start_state-Agrees :
    (message : Publish)
    → Agrees message (if quality_of_service message == 2 then waiting_pubrec else waiting_puback)
start_state-Agrees message = elim (Bool-cases (quality_of_service message == 2)) [
  | inl t ↦ simp t ((λ e. cc e), λ ne. absurd (ne (ground arith)))
  | inr f ↦ simp f ((λ e q. ground arith), λ ne. refl)
]

transmit-IsWellFormed :
    {P : ConnectionSm → Type 0} (message : Publish) (receiver : ℕ) (c : Client)
    → IsIdentifier message.packet_identifier
    → 0 < c.server_send_quota
    → IsWellFormed P c
    → IsWellFormed P (transmit message receiver c)
unfolding transmit
transmit-IsWellFormed message receiver c id some_quota w = record {
  identifier = w.identifier;
  maximum = w.maximum;
  sends = omega (arith, w.sends, w.maximum);
  in_flight =
      All-append IsInFlight c.published_messages _ w.in_flight
        ((id, start_state-Agrees message), tt);
  waiting = w.waiting;
  unreleased = w.unreleased;
  machine = w.machine;
}

abbrev more : Client → Client
more c = record c { server_send_quota = (c.server_send_quota + 1) % 2 ^ 16 }

start_next-IsWellFormed :
    {P : ConnectionSm → Type 0} (c : Client) (queued : List QueuedPublish)
    → c.queued_publishes ≡ queued
    → c.server_send_quota < c.server_max_send_quota
    → IsWellFormed P c
    → IsWellFormed P (send_next queued (more c))
unfolding send_next
start_next-IsWellFormed c [] e less w = record {
  identifier = w.identifier;
  maximum = w.maximum;
  sends = omega (arith, w.sends, w.maximum);
  in_flight = w.in_flight;
  waiting = w.waiting;
  unreleased = w.unreleased;
  machine = w.machine;
}
start_next-IsWellFormed c (q ∷ qs) e less w =
    let waiting : All IsQueued (q ∷ qs) = rw e at w.waiting in
    transmit-IsWellFormed q.message q.receiver (record (more c) { queued_publishes = qs }) waiting.0
      (omega (arith, w.maximum))
      (record {
        identifier = w.identifier;
        maximum = w.maximum;
        sends = omega (arith, w.sends, w.maximum);
        in_flight = w.in_flight;
        waiting = waiting.1;
        unreleased = w.unreleased;
        machine = w.machine;
      })

pub maybe_send_queued_publish-IsWellFormed :
    {P : ConnectionSm → Type 0} (c : Client)
    → IsWellFormed P c
    → IsWellFormed P (maybe_send_queued_publish c)
unfolding maybe_send_queued_publish
maybe_send_queued_publish-IsWellFormed c w =
    elim (Bool-cases (ltb c.server_send_quota c.server_max_send_quota)) [
      | inl t ↦ simp t (start_next-IsWellFormed c c.queued_publishes refl (ground arith) w)
      | inr f ↦ simp f w
    ]

pub without :
    {P : ConnectionSm → Type 0} (c : Client) (id : ℕ)
    → IsWellFormed P c
    → IsWellFormed P (taken_out id c)
without c id w = record {
  identifier = w.identifier;
  maximum = w.maximum;
  sends = w.sends;
  in_flight = All-erase identifier_of IsInFlight id c.published_messages w.in_flight;
  waiting = w.waiting;
  unreleased = w.unreleased;
  machine = w.machine;
}

module _ {P : ConnectionSm → Type 0} (resume : Completion → Client → Client)
    (keeps : (x : Completion) (c : Client) → IsWellFormed P c → IsWellFormed P (resume x c)) where
  pub start_publish-IsWellFormed :
      (modify : Publish → Publish) (message : Publish) (receiver : ℕ) (c : Client)
      → IsWellFormed P c
      → IsWellFormed P (start_publish resume modify message receiver c)
  unfolding start_publish next_packet_identifier
  start_publish-IsWellFormed modify message receiver c w =
      let numbered : IsWellFormed P (record c { next_identifier = increment c.next_identifier }) =
        record {
          identifier = increment_bounds c.next_identifier;
          maximum = w.maximum;
          sends = w.sends;
          in_flight = w.in_flight;
          waiting = w.waiting;
          unreleased = w.unreleased;
          machine = w.machine;
        } in
      elim (Bool-cases (quality_of_service (modify message) == 0)) [
        | inl t ↦ simp t (
            keeps (publish_value receiver 0)
              (completing (publish_value receiver 0)
                (send_message (ControlPacket.publish (modify message)) c))
              w)
        | inr f ↦ elim (Bool-cases (ltb 0 c.server_send_quota)) [
          | inl s ↦
              simp (f, s)
                (transmit-IsWellFormed
                  (record (modify message) { packet_identifier = c.next_identifier }) receiver
                  (record c { next_identifier = increment c.next_identifier }) w.identifier
                  (ground arith) numbered)
          | inr s ↦
              simp (f, s)
                (record {
                  identifier = increment_bounds c.next_identifier;
                  maximum = w.maximum;
                  sends = w.sends;
                  in_flight = w.in_flight;
                  waiting = All-append IsQueued c.queued_publishes _ w.waiting (w.identifier, tt);
                  unreleased = w.unreleased;
                  machine = w.machine;
                })
        ]
      ]

  finish_puback-IsWellFormed :
      (state : PublishState) (receiver reason_code : ℕ) (c : Client)
      → IsWellFormed P c
      → IsWellFormed P (finish_puback resume state receiver reason_code c)
  unfolding finish_puback
  finish_puback-IsWellFormed waiting_puback receiver reason_code c w =
      let x = publish_value receiver reason_code in keeps x (completing x c) w
  finish_puback-IsWellFormed waiting_pubrec receiver reason_code c w =
      keeps (publish_done receiver) (completing (publish_done receiver) c) w
  finish_puback-IsWellFormed waitiing_pubcomp receiver reason_code c w =
      keeps (publish_done receiver) (completing (publish_done receiver) c) w

  pub handle_puback-IsWellFormed :
      (puback : Ack) (c : Client)
      → IsWellFormed P c
      → IsWellFormed P (handle_puback resume puback c)
  unfolding handle_puback
  handle_puback-IsWellFormed puback c w =
      let id = puback.packet_identifier in
      elim (Option-cases (find identifier_of id c.published_messages)) [
        | inl e ↦ simp e (maybe_send_queued_publish-IsWellFormed c w)
        | inr (m, e) ↦ simp e (
            maybe_send_queued_publish-IsWellFormed
              (finish_puback resume m.state m.receiver puback.reason_code (taken_out id c))
              (finish_puback-IsWellFormed m.state m.receiver puback.reason_code (taken_out id c)
                (without c id w)))
      ]

  pub handle_pubcomp-IsWellFormed :
      (pubcomp : Ack) (c : Client)
      → IsWellFormed P c
      → IsWellFormed P (handle_pubcomp resume pubcomp c)
  unfolding handle_pubcomp
  handle_pubcomp-IsWellFormed pubcomp c w =
      let id = pubcomp.packet_identifier in
      elim (Option-cases (find identifier_of id c.published_messages)) [
        | inl e ↦ simp e w
        | inr (m, e) ↦
            let x = publish_value m.receiver pubcomp.reason_code in
            simp e (keeps x (completing x (taken_out id c)) (without c id w))
      ]
