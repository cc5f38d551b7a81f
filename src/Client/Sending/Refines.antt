-- ===== src/Client/Sending/Refines.antt =====
-- The client's vector and queue refine a session, as long as no identifier is used twice. Receivers
-- do not call the client.
use mqtt.Base.{
  ℕ, ◌+◌, ◌%◌, ◌^◌, ◌≡◌, ◌≢◌, refl, List, [], ◌∷◌, none, some, ◌==◌, ltb, if◌then◌else◌, Bool-cases,
  inl, inr, Option-cases,
}
use mqtt.Packet.Publish.{Publish, quality_of_service}
use mqtt.Packet.Puback.{Ack}
use mqtt.Client.{
  PublishState, waiting_puback, waiting_pubrec, waitiing_pubcomp, InFlightPublish, QueuedPublish,
  Client,
}
use mqtt.Client.Find.{find}
use mqtt.Client.Sending.{
  identifier_of, no_matching_subscribers, transmit, send_next, taken_out, maybe_send_queued_publish,
  finish_puback, handle_puback, released, advance_pubrec, handle_pubrec, handle_pubcomp,
}
use mqtt.Client.Sending.Flows.{no_resume}
use mqtt.Client.Sending.Unshared.{
  queued_identifier, IsUnshared, erase-IsUnshared, begin-IsUnshared, assign-IsUnshared,
}
use mqtt.Client.Sending.Session.{
  view, begin, finish, release, Moves, move, view-erase, view-append, view-assign,
}

-- A step of the client keeps that, and is moves of the session.
pub record Refines (ms : List InFlightPublish) (c : Client) : Type 0 where
  pub unshared : IsUnshared c.published_messages c.queued_publishes
  pub moves : Moves (view ms) (view c.published_messages)

start_state : Publish → PublishState
start_state message = if quality_of_service message == 2 then waiting_pubrec else waiting_puback

start_state-ne : (message : Publish) → start_state message ≢ waitiing_pubcomp
unfolding start_state
start_state-ne message = elim (Bool-cases (quality_of_service message == 2)) [
  | inl t ↦ rw t (λ e. cc e)
  | inr f ↦ rw f (λ e. cc e)
]

module _ (ms : List InFlightPublish) (c : Client) (r : Refines ms c) where
  erase-Refines :
      (id : ℕ) (m : InFlightPublish)
      → find identifier_of id c.published_messages ≡ some m
      → Refines ms (taken_out id c)
  unfolding view
  erase-Refines id m e = record {
    unshared = erase-IsUnshared c.published_messages c.queued_publishes r.unshared id;
    moves = move r.moves (
        finish id m.state (simp e)
          (λ j. view-erase id j c.published_messages r.unshared.in_flight));
  }

  pub transmit-Refines :
      (message : Publish) (receiver : ℕ)
      → find identifier_of message.packet_identifier c.published_messages ≡ none
      → find queued_identifier message.packet_identifier c.queued_publishes ≡ none
      → Refines ms (transmit message receiver c)
  unfolding transmit start_state
  transmit-Refines message receiver new unqueued =
      let m : InFlightPublish = record {
        message = message;
        receiver = receiver;
        state = start_state message;
      } in
      record {
        unshared =
            begin-IsUnshared c.published_messages c.queued_publishes r.unshared m new unqueued;
        moves = move r.moves (
            begin message.packet_identifier (start_state message) (unfold view in simp new)
              (start_state-ne message) (λ j. view-append c.published_messages m j new));
      }

  finish_puback-Refines :
      (state : PublishState) (receiver code : ℕ)
      → Refines ms (finish_puback no_resume state receiver code c)
  unfolding finish_puback
  finish_puback-Refines waiting_puback receiver code = record {
    unshared = r.unshared;
    moves = r.moves;
  }
  finish_puback-Refines waiting_pubrec receiver code = record {
    unshared = r.unshared;
    moves = r.moves;
  }
  finish_puback-Refines waitiing_pubcomp receiver code = record {
    unshared = r.unshared;
    moves = r.moves;
  }

  released-Refines :
      (id : ℕ) (m : InFlightPublish)
      → find identifier_of id c.published_messages ≡ some m
      → m.state ≢ waiting_puback
      → Refines ms (released id c)
  unfolding released
  released-Refines id m e ne = record {
    unshared =
        assign-IsUnshared c.published_messages c.queued_publishes waitiing_pubcomp id r.unshared;
    moves = move r.moves (
        release id m.state (unfold view in simp e) ne
          (λ j. view-assign waitiing_pubcomp id j c.published_messages m e));
  }

send_next-Refines :
    (ms : List InFlightPublish) (c : Client) (queued : List QueuedPublish)
    → c.queued_publishes ≡ queued
    → Refines ms c
    → Refines ms (send_next queued c)
unfolding send_next
send_next-Refines ms c [] e r = r
send_next-Refines ms c (q ∷ qs) e r =
    let u : IsUnshared c.published_messages (q ∷ qs) = rw e at r.unshared in
    transmit-Refines ms (record c { queued_publishes = qs })
      (record {
        unshared = record { in_flight = u.in_flight; waiting = u.waiting.1; apart = u.apart.1 };
        moves = r.moves;
      })
      q.message q.receiver u.apart.0 u.waiting.0

maybe_send-Refines :
    (ms : List InFlightPublish) (c : Client)
    → Refines ms c
    → Refines ms (maybe_send_queued_publish c)
unfolding maybe_send_queued_publish
maybe_send-Refines ms c r = elim (Bool-cases (ltb c.server_send_quota c.server_max_send_quota)) [
  | inl t ↦ simp t (
      send_next-Refines ms (record c { server_send_quota = (c.server_send_quota + 1) % 2 ^ 16 })
        c.queued_publishes refl (record { unshared = r.unshared; moves = r.moves }))
  | inr f ↦ simp f r
]

pub puback-Refines :
    (ms : List InFlightPublish) (puback : Ack) (c : Client)
    → Refines ms c
    → Refines ms (handle_puback no_resume puback c)
unfolding handle_puback
puback-Refines ms puback c r =
    let id = puback.packet_identifier in
    elim (Option-cases (find identifier_of id c.published_messages)) [
      | inl e ↦ simp e (maybe_send-Refines ms c r)
      | inr (m, e) ↦
          let r1 = erase-Refines ms c r id m e in
          simp e (
            maybe_send-Refines ms _
              (finish_puback-Refines ms (taken_out id c) r1 m.state m.receiver puback.reason_code))
    ]

pub pubcomp-Refines :
    (ms : List InFlightPublish) (pubcomp : Ack) (c : Client)
    → Refines ms c
    → Refines ms (handle_pubcomp no_resume pubcomp c)
unfolding handle_pubcomp
pubcomp-Refines ms pubcomp c r =
    let id = pubcomp.packet_identifier in
    elim (Option-cases (find identifier_of id c.published_messages)) [
      | inl e ↦ simp e r
      | inr (m, e) ↦
          let r1 = erase-Refines ms c r id m e in
          simp e (record { unshared = r1.unshared; moves = r1.moves })
    ]

advance-Refines :
    (ms : List InFlightPublish) (state : PublishState) (id : ℕ) (m : InFlightPublish) (c : Client)
    → find identifier_of id c.published_messages ≡ some m
    → m.state ≡ state
    → Refines ms c
    → Refines ms (advance_pubrec no_resume state m.receiver id c)
unfolding advance_pubrec
advance-Refines ms waiting_puback id m c e s r =
    let r1 = erase-Refines ms c r id m e in record { unshared = r1.unshared; moves = r1.moves }
advance-Refines ms waiting_pubrec id m c e s r = released-Refines ms c r id m e (λ z. cc (z, s))
advance-Refines ms waitiing_pubcomp id m c e s r = released-Refines ms c r id m e (λ z. cc (z, s))

pub pubrec-Refines :
    (ms : List InFlightPublish) (pubrec : Ack) (c : Client)
    → Refines ms c
    → Refines ms (handle_pubrec no_resume pubrec c)
unfolding handle_pubrec
pubrec-Refines ms pubrec c r =
    let id = pubrec.packet_identifier in
    elim (Option-cases (find identifier_of id c.published_messages)) [
      | inl e ↦ simp e (record { unshared = r.unshared; moves = r.moves })
      | inr (m, e) ↦ elim (Bool-cases (ltb no_matching_subscribers pubrec.reason_code)) [
        | inl t ↦
            let r1 = erase-Refines ms c r id m e in
            simp (e, t) (record { unshared = r1.unshared; moves = r1.moves })
        | inr f ↦ simp (e, f) (advance-Refines ms m.state id m c e refl r)
      ]
    ]
