-- ===== src/Client/Delivering/WellFormed.antt =====
-- The invariant through the messages that are received.
use mqtt.Base.{
  ℕ, List, [], ◌∷◌, Result, ok, err, ◌==◌, ltb, Bool-cases, Option-cases, Result-cases, inl, inr,
}
use mqtt.Packet.Publish.{Publish, quality_of_service}
use mqtt.Packet.Puback.{Ack}
use mqtt.ControlPacket
use mqtt.Client.{Completion, message_value, completed, Client, emit, send_message}
use mqtt.Client.Find.{find, erase, IsDistinct, erase-IsDistinct, append-IsDistinct}
use mqtt.Client.States.{ConnectionSm}
use mqtt.Client.WellFormed.{received_identifier, IsWellFormed}
use mqtt.Client.Sending.{ack_for}
use mqtt.Client.Delivering.{
  take_matching, take_receive_quota, keep_publish, call_receivers, call_all,
  deliver_to_publish_waiters, accept_publish, handle_publish, handle_pubrel,
}

take_receive_quota-IsWellFormed :
    {P : ConnectionSm → Type 0} (p : Publish) (c : Client)
    → IsWellFormed P c
    → IsWellFormed P (take_receive_quota p c)
unfolding take_receive_quota
take_receive_quota-IsWellFormed p c w = elim (Bool-cases (quality_of_service p == 0)) [
  | inl z ↦ simp z w
  | inr n ↦ elim (Bool-cases (ltb 0 c.client_receive_quota)) [
    | inl t ↦ simp (n, t) w
    | inr f ↦ simp (n, f) w
  ]
]

keep_publish-IsDistinct :
    (p : Publish) (kept : List Publish)
    → IsDistinct received_identifier kept
    → IsDistinct received_identifier (keep_publish p kept)
unfolding keep_publish
keep_publish-IsDistinct p kept d =
    elim (Option-cases (find received_identifier p.packet_identifier kept)) [
      | inl e ↦ simp e (append-IsDistinct received_identifier kept p d e)
      | inr (x, e) ↦ simp e d
    ]

with_received :
    {P : ConnectionSm → Type 0} (kept : List Publish) (c : Client)
    → IsDistinct received_identifier kept
    → IsWellFormed P c
    → IsWellFormed P (record c { received_qos2_states = kept })
with_received kept c d w = record {
  identifier = w.identifier;
  maximum = w.maximum;
  sends = w.sends;
  in_flight = w.in_flight;
  waiting = w.waiting;
  unreleased = d;
  machine = w.machine;
}

-- The invariant of what a handler returns, if it does.
abbrev pub Keeps : (ConnectionSm → Type 0) → Result Client → Type 0
Keeps P (ok c) = IsWellFormed P c
Keeps P (err e) = Unit {0}

module _ {P : ConnectionSm → Type 0} (resume : Completion → Client → Client)
    (keeps : (x : Completion) (c : Client) → IsWellFormed P c → IsWellFormed P (resume x c)) where
  call_receivers-IsWellFormed :
      (p : Publish) (rv : List ℕ) (c : Client)
      → IsWellFormed P c
      → IsWellFormed P (call_receivers resume p rv c)
  unfolding call_receivers
  call_receivers-IsWellFormed p [] c w = w
  call_receivers-IsWellFormed p (rx ∷ rv) c w =
      let x = message_value rx p in
      call_receivers-IsWellFormed p rv (resume x (emit (completed x) c))
        (keeps x (emit (completed x) c) w)

  call_all-IsWellFormed :
      (p : Publish) (rvs : List (List ℕ)) (c : Client)
      → IsWellFormed P c
      → IsWellFormed P (call_all resume p rvs c)
  unfolding call_all
  call_all-IsWellFormed p [] c w = w
  call_all-IsWellFormed p (rv ∷ rvs) c w =
      call_all-IsWellFormed p rvs (call_receivers resume p rv c)
        (call_receivers-IsWellFormed p rv c w)

  deliver-Keeps :
      (p : Publish) (c : Client)
      → IsWellFormed P c
      → Keeps P (deliver_to_publish_waiters resume p c)
  unfolding deliver_to_publish_waiters
  deliver-Keeps p c w = elim (Result-cases (take_matching p.topic c.publish_waiters)) [
    | inl ((rvs, stay), e) ↦
        simp e (call_all-IsWellFormed p rvs (record c { publish_waiters = stay }) w)
    | inr (x, e) ↦ simp e tt
  ]

  accept_publish-Keeps :
      (p : Publish) (c : Client) → IsWellFormed P c → Keeps P (accept_publish resume p c)
  unfolding accept_publish
  accept_publish-Keeps p c w =
      let ack = ack_for p.packet_identifier 0 in
      elim (Bool-cases (quality_of_service p == 1)) [
        | inl t ↦ simp t (deliver-Keeps p (send_message (ControlPacket.puback ack) c) w)
        | inr f ↦ elim (Bool-cases (quality_of_service p == 2)) [
          | inl t ↦
              simp (f, t)
                (with_received (keep_publish p c.received_qos2_states) c
                  (keep_publish-IsDistinct p c.received_qos2_states w.unreleased) w)
          | inr g ↦ simp (f, g) (deliver-Keeps p c w)
        ]
      ]

  pub handle_publish-Keeps :
      (p : Publish) (c : Client) → IsWellFormed P c → Keeps P (handle_publish resume p c)
  unfolding handle_publish
  handle_publish-Keeps p c w =
      accept_publish-Keeps p (take_receive_quota p c) (take_receive_quota-IsWellFormed p c w)

  pub handle_pubrel-Keeps :
      (pubrel : Ack) (c : Client) → IsWellFormed P c → Keeps P (handle_pubrel resume pubrel c)
  unfolding handle_pubrel
  handle_pubrel-Keeps pubrel c w =
      let id = pubrel.packet_identifier in
      elim (Option-cases (find received_identifier id c.received_qos2_states)) [
        | inl e ↦ simp e w
        | inr (p, e) ↦
            let kept = erase received_identifier id c.received_qos2_states in
            simp e (
              deliver-Keeps p
                (send_message (ControlPacket.pubcomp (ack_for id 0))
                  (record c { received_qos2_states = kept }))
                (with_received kept c
                  (erase-IsDistinct received_identifier id c.received_qos2_states w.unreleased) w))
      ]
