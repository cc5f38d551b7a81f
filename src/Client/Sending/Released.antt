-- ===== src/Client/Sending/Released.antt =====
-- The invariant through a PUBREC and the release that it leads to.
use mqtt.Base.{ℕ, ◌≡◌, ◌≢◌, refl, Option, some, ltb, Bool-cases, Option-cases, inl, inr, sym, ◌∙◌}
use mqtt.Packet.Puback.{Ack}
use mqtt.Client.{
  PublishState, waiting_puback, waiting_pubrec, waitiing_pubcomp, InFlightPublish, Completion,
  publish_value, publish_done, Client,
}
use mqtt.Client.Find.{find, All-assign}
use mqtt.Client.States.{ConnectionSm}
use mqtt.Client.WellFormed.{IsInFlight, IsWellFormed}
use mqtt.Client.Sending.{
  identifier_of, no_matching_subscribers, taken_out, released, advance_pubrec, handle_pubrec,
}
use mqtt.Client.Sending.WellFormed.{completing, without}

same_state :
    {o : Option InFlightPublish} {m x : InFlightPublish}
    → o ≡ some m
    → o ≡ some x
    → x.state ≡ waiting_puback
    → m.state ≡ waiting_puback
same_state {m = m} {x = x} e q s =
    let e1 : some m ≡ some x = sym e ∙ q in let e2 : m ≡ x = cc e1 in rw e2 s

module _ {P : ConnectionSm → Type 0} (resume : Completion → Client → Client)
    (keeps : (x : Completion) (c : Client) → IsWellFormed P c → IsWellFormed P (resume x c)) where
  released-IsWellFormed :
      (id : ℕ) (m : InFlightPublish) (c : Client)
      → find identifier_of id c.published_messages ≡ some m
      → m.state ≢ waiting_puback
      → IsWellFormed P c
      → IsWellFormed P (released id c)
  unfolding released
  released-IsWellFormed id m c e ne w = record {
    identifier = w.identifier;
    maximum = w.maximum;
    sends = w.sends;
    in_flight =
        All-assign identifier_of IsInFlight (λ x. record x { state = waitiing_pubcomp }) id
          c.published_messages w.in_flight
          (λ x q h. (h.0, ((λ z. cc z), λ n. absurd (ne (same_state e q (h.1.1 n))))));
    waiting = w.waiting;
    unreleased = w.unreleased;
    machine = w.machine;
  }

  advance_pubrec-IsWellFormed :
      (state : PublishState) (id : ℕ) (m : InFlightPublish) (c : Client)
      → find identifier_of id c.published_messages ≡ some m
      → m.state ≡ state
      → IsWellFormed P c
      → IsWellFormed P (advance_pubrec resume state m.receiver id c)
  unfolding advance_pubrec
  advance_pubrec-IsWellFormed waiting_puback id m c e s w =
      let x = publish_done m.receiver in keeps x (completing x (taken_out id c)) (without c id w)
  advance_pubrec-IsWellFormed waiting_pubrec id m c e s w =
      released-IsWellFormed id m c e (λ z. cc (z, s)) w
  advance_pubrec-IsWellFormed waitiing_pubcomp id m c e s w =
      released-IsWellFormed id m c e (λ z. cc (z, s)) w

  pub handle_pubrec-IsWellFormed :
      (pubrec : Ack) (c : Client)
      → IsWellFormed P c
      → IsWellFormed P (handle_pubrec resume pubrec c)
  unfolding handle_pubrec
  handle_pubrec-IsWellFormed pubrec c w =
      let id = pubrec.packet_identifier in
      elim (Option-cases (find identifier_of id c.published_messages)) [
        | inl e ↦ simp e w
        | inr (m, e) ↦ elim (Bool-cases (ltb no_matching_subscribers pubrec.reason_code)) [
          | inl t ↦
              let x = publish_value m.receiver pubrec.reason_code in
              simp (e, t) (keeps x (completing x (taken_out id c)) (without c id w))
          | inr f ↦ simp (e, f) (advance_pubrec-IsWellFormed m.state id m c e refl w)
        ]
      ]
