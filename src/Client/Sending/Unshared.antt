-- ===== src/Client/Sending/Unshared.antt =====
-- No packet identifier is in use twice, in flight or in the queue.
use mqtt.Base.{
  ℕ, ◌≡◌, ◌≢◌, refl, List, [], ◌∷◌, ◌++◌, none, ◌==◌, arith, All, All-append, Bool-cases, inl, inr,
}
use mqtt.Client.{PublishState, InFlightPublish, QueuedPublish}
use mqtt.Client.Find.{find, erase, assign, IsDistinct, erase-IsDistinct, append-IsDistinct}
use mqtt.Client.Sending.{identifier_of}
use mqtt.Client.Sending.Session.{with_state}

abbrev pub queued_identifier : QueuedPublish → ℕ
queued_identifier q = q.message.packet_identifier

-- No identifier is in use twice, in flight or in the queue.
pub record IsUnshared (ms : List InFlightPublish) (qs : List QueuedPublish) : Type 0 where
  pub in_flight : IsDistinct identifier_of ms
  pub waiting : IsDistinct queued_identifier qs
  pub apart : All (λ q. find identifier_of (queued_identifier q) ms ≡ none) qs

-- Elements of other keys than one that is not found.
others :
    (k : ℕ) (qs : List QueuedPublish)
    → find queued_identifier k qs ≡ none
    → All (λ q. queued_identifier q ≢ k) qs
unfolding find
others k [] e = tt
others k (q ∷ qs) e = elim (Bool-cases (queued_identifier q == k)) [
  | inl t ↦ absurd (ground arith)
  | inr f ↦ (ground arith, others k qs (rw f at e))
]

find-append_other :
    (k : ℕ) (ms : List InFlightPublish) (m : InFlightPublish)
    → find identifier_of k ms ≡ none
    → k ≢ identifier_of m
    → find identifier_of k (ms ++ m ∷ []) ≡ none
unfolding find
find-append_other k [] m e ne = ground arith
find-append_other k (x ∷ xs) m e ne = elim (Bool-cases (identifier_of x == k)) [
  | inl t ↦ absurd (ground arith)
  | inr f ↦ simp f (find-append_other k xs m (rw f at e) ne)
]

apart-append :
    (ms : List InFlightPublish) (m : InFlightPublish) (qs : List QueuedPublish)
    → All (λ q. find identifier_of (queued_identifier q) ms ≡ none) qs
    → All (λ q. queued_identifier q ≢ identifier_of m) qs
    → All (λ q. find identifier_of (queued_identifier q) (ms ++ m ∷ []) ≡ none) qs
apart-append ms m [] a ne = tt
apart-append ms m (q ∷ qs) a ne =
    (find-append_other (queued_identifier q) ms m a.0 ne.0, apart-append ms m qs a.1 ne.1)

find-erase-none :
    (id k : ℕ) (ms : List InFlightPublish)
    → find identifier_of k ms ≡ none
    → find identifier_of k (erase identifier_of id ms) ≡ none
unfolding find erase
find-erase-none id k [] e = refl
find-erase-none id k (x ∷ xs) e = ground (arith, find-erase-none id k xs)

apart-erase :
    (id : ℕ) (ms : List InFlightPublish) (qs : List QueuedPublish)
    → All (λ q. find identifier_of (queued_identifier q) ms ≡ none) qs
    → All (λ q. find identifier_of (queued_identifier q) (erase identifier_of id ms) ≡ none) qs
apart-erase id ms [] a = tt
apart-erase id ms (q ∷ qs) a =
    (find-erase-none id (queued_identifier q) ms a.0, apart-erase id ms qs a.1)

module _ (ms : List InFlightPublish) (qs : List QueuedPublish) (u : IsUnshared ms qs) where
  pub erase-IsUnshared : (id : ℕ) → IsUnshared (erase identifier_of id ms) qs
  erase-IsUnshared id = record {
    in_flight = erase-IsDistinct identifier_of id ms u.in_flight;
    waiting = u.waiting;
    apart = apart-erase id ms qs u.apart;
  }

  pub begin-IsUnshared :
      (m : InFlightPublish)
      → find identifier_of (identifier_of m) ms ≡ none
      → find queued_identifier (identifier_of m) qs ≡ none
      → IsUnshared (ms ++ m ∷ []) qs
  begin-IsUnshared m new unqueued = record {
    in_flight = append-IsDistinct identifier_of ms m u.in_flight new;
    waiting = u.waiting;
    apart = apart-append ms m qs u.apart (others (identifier_of m) qs unqueued);
  }

  pub queue-IsUnshared :
      (q : QueuedPublish)
      → find identifier_of (queued_identifier q) ms ≡ none
      → find queued_identifier (queued_identifier q) qs ≡ none
      → IsUnshared ms (qs ++ q ∷ [])
  queue-IsUnshared q new unqueued = record {
    in_flight = u.in_flight;
    waiting = append-IsDistinct queued_identifier qs q u.waiting unqueued;
    apart = All-append _ qs (q ∷ []) u.apart (new, tt);
  }

-- An assignment of a state keeps the keys.
find-assign-none :
    (s : PublishState) (id k : ℕ) (ms : List InFlightPublish)
    → find identifier_of k ms ≡ none
    → find identifier_of k (assign identifier_of (with_state s) id ms) ≡ none
unfolding find assign
find-assign-none s id k [] e = refl
find-assign-none s id k (x ∷ xs) e = ground (arith, find-assign-none s id k xs)

assign-IsDistinct :
    (s : PublishState) (id : ℕ) (ms : List InFlightPublish)
    → IsDistinct identifier_of ms
    → IsDistinct identifier_of (assign identifier_of (with_state s) id ms)
unfolding assign
assign-IsDistinct s id [] d = tt
assign-IsDistinct s id (x ∷ xs) d = elim (Bool-cases (identifier_of x == id)) [
  | inl t ↦ simp t (d.0, d.1)
  | inr f ↦ simp f (find-assign-none s id (identifier_of x) xs d.0, assign-IsDistinct s id xs d.1)
]

apart-assign :
    (s : PublishState) (id : ℕ) (ms : List InFlightPublish) (qs : List QueuedPublish)
    → All (λ q. find identifier_of (queued_identifier q) ms ≡ none) qs
    → All
        (λ q.
          find identifier_of (queued_identifier q) (assign identifier_of (with_state s) id ms)
          ≡ none)
        qs
apart-assign s id ms [] a = tt
apart-assign s id ms (q ∷ qs) a =
    (find-assign-none s id (queued_identifier q) ms a.0, apart-assign s id ms qs a.1)

pub assign-IsUnshared :
    (ms : List InFlightPublish) (qs : List QueuedPublish) (s : PublishState) (id : ℕ)
    → IsUnshared ms qs
    → IsUnshared (assign identifier_of (with_state s) id ms) qs
assign-IsUnshared ms qs s id u = record {
  in_flight = assign-IsDistinct s id ms u.in_flight;
  waiting = u.waiting;
  apart = apart-assign s id ms qs u.apart;
}
