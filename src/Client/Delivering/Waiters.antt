-- ===== src/Client/Delivering/Waiters.antt =====
-- Which receivers a delivered message reaches.
use mqtt.Base.{
  ℕ, ◌≡◌, refl, sym, ap, ◌∙◌, List, [], ◌∷◌, ◌++◌, Bool, ok, if◌then◌else◌, All, append_assoc,
  append-nil, map, Bool-cases, inl, inr,
}
use mqtt.TopicFilter.{matches}
use mqtt.Packet.Publish.{Publish}
use mqtt.Client.{FilteredSubscription, Completion, message_value, Client, Effect, completed}
use mqtt.Client.Delivering.{take_matching, call_receivers, call_all, deliver_to_publish_waiters}

-- The receivers of the waiters that a test picks, in their order, and the waiters that it does not.
abbrev pub picked_receivers : (FilteredSubscription → Bool) → List FilteredSubscription → List ℕ
picked_receivers test [] = []
picked_receivers test (w ∷ ws) =
    let rest = picked_receivers test ws in if test w then w.receivers ++ rest else rest

abbrev pub not_picked :
    (FilteredSubscription → Bool) → List FilteredSubscription → List FilteredSubscription
not_picked test [] = []
not_picked test (w ∷ ws) = let rest = not_picked test ws in if test w then rest else w ∷ rest

abbrev calls : Publish → List ℕ → List Effect
calls p = map (λ rx. completed (message_value rx p))

-- A receiver that does not call the client.
abbrev pub no_resume : Completion → Client → Client
no_resume x c = c

abbrev with_effects : List Effect → Client → Client
with_effects es c = record c { effects = c.effects ++ es }

call_receivers-effects :
    (p : Publish) (rv : List ℕ) (c : Client)
    → call_receivers no_resume p rv c ≡ with_effects (calls p rv) c
unfolding call_receivers
call_receivers-effects p [] c = ap (λ es. record c { effects = es }) (sym (append-nil c.effects))
call_receivers-effects p (rx ∷ rv) c =
    let step = completed (message_value rx p) in
    call_receivers-effects p rv (with_effects (step ∷ []) c)
    ∙ ap (λ es. record c { effects = es }) (append_assoc c.effects (step ∷ []) (calls p rv))

abbrev flat : List (List ℕ) → List ℕ
flat [] = []
flat (rv ∷ rvs) = rv ++ flat rvs

calls-append : (p : Publish) (xs ys : List ℕ) → calls p (xs ++ ys) ≡ calls p xs ++ calls p ys
calls-append p [] ys = refl
calls-append p (x ∷ xs) ys = ap (◌∷◌ (completed (message_value x p))) (calls-append p xs ys)

call_all-effects :
    (p : Publish) (rvs : List (List ℕ)) (c : Client)
    → call_all no_resume p rvs c ≡ with_effects (calls p (flat rvs)) c
unfolding call_all
call_all-effects p [] c = ap (λ es. record c { effects = es }) (sym (append-nil c.effects))
call_all-effects p (rv ∷ rvs) c =
    ap (call_all no_resume p rvs) (call_receivers-effects p rv c)
    ∙ call_all-effects p rvs (with_effects (calls p rv) c)
    ∙ ap (λ es. record c { effects = es })
        (append_assoc c.effects (calls p rv) (calls p (flat rvs))
          ∙ ap (λ es. c.effects ++ es) (sym (calls-append p rv (flat rvs))))

take_matching-picked :
    (topic : List ℕ) (test : FilteredSubscription → Bool) (ws : List FilteredSubscription)
    → All (λ w. matches w.filter topic ≡ ok (test w)) ws
    → (rvs : List (List ℕ)) × (take_matching topic ws ≡ ok (rvs, not_picked test ws))
      × (flat rvs ≡ picked_receivers test ws)
unfolding take_matching
take_matching-picked topic test [] h = ([], refl, refl)
take_matching-picked topic test (w ∷ ws) h =
    let (rvs, e1, e2) = take_matching-picked topic test ws h.1 in
    elim (Bool-cases (test w)) [
      | inl t ↦
          (w.receivers ∷ rvs, rw (h.0, e1, t) refl, simp t (ap (λ rest. w.receivers ++ rest) e2))
      | inr f ↦ (rvs, rw (h.0, e1, f) refl, simp f e2)
    ]

-- Where the filters of all waiters can be matched with the topic, a delivery calls the receivers
-- of those that match, each once and in order, and takes their waiters out; the others stay. The
-- receivers do not call the client.
pub deliver_to_publish_waiters-picked :
    (p : Publish) (test : FilteredSubscription → Bool) (c : Client)
    → All (λ w. matches w.filter p.topic ≡ ok (test w)) c.publish_waiters
    → deliver_to_publish_waiters no_resume p c
      ≡ ok (record c {
        publish_waiters = not_picked test c.publish_waiters;
        effects =
            c.effects
            ++ map (λ rx. completed (message_value rx p)) (picked_receivers test c.publish_waiters);
      })
unfolding deliver_to_publish_waiters
deliver_to_publish_waiters-picked p test c h =
    let (rvs, e1, e2) = take_matching-picked p.topic test c.publish_waiters h in
    rw (e1, sym e2)
      (ap ok
        (call_all-effects p rvs (record c { publish_waiters = not_picked test c.publish_waiters })))
