-- ===== src/Client/Sending/Session.antt =====
-- The messages in flight as a session of MQTT: what state each packet identifier is in, whatever the
-- order of the vector and the messages themselves.
use mqtt.Base.{
  ℕ, ◌≡◌, ◌≢◌, refl, ap, List, [], ◌∷◌, ◌++◌, true, false, Option, none, some, ◌==◌, if◌then◌else◌,
  option_case, arith, Bool-cases, inl, inr, Option-cases,
}
use mqtt.Client.{PublishState, waiting_puback, waitiing_pubcomp, InFlightPublish}
use mqtt.Client.Find.{find, erase, assign, IsDistinct, find-erase, find-erase_other}
use mqtt.Client.Sending.{identifier_of}

abbrev pub Session : Type 0
Session = ℕ → Option PublishState

abbrev pub state_of : Option InFlightPublish → Option PublishState
state_of found = option_case found none (λ m. some m.state)

-- What the vector says of an identifier.
unfoldable pub view : List InFlightPublish → Session
view ms id = state_of (find identifier_of id ms)

abbrev pub update : Session → ℕ → Option PublishState → Session
update session id state j = if j == id then state else session j

-- What MQTT lets a sender do to its session: a message under a new identifier waits for a PUBACK or a
-- PUBREC; one that waits is finished; one of quality 2 is released and waits for the PUBCOMP.
pub data Move (before after : Session) : Type 0 where
  stay : ((j : ℕ) → after j ≡ before j) → Move before after
  begin :
      (id : ℕ) (state : PublishState)
      → before id ≡ none
      → state ≢ waitiing_pubcomp
      → ((j : ℕ) → after j ≡ update before id (some state) j)
      → Move before after
  finish :
      (id : ℕ) (state : PublishState)
      → before id ≡ some state
      → ((j : ℕ) → after j ≡ update before id none j)
      → Move before after
  release :
      (id : ℕ) (state : PublishState)
      → before id ≡ some state
      → state ≢ waiting_puback
      → ((j : ℕ) → after j ≡ update before id (some waitiing_pubcomp) j)
      → Move before after

pub data Moves (before : Session) : Session → Type 0 where
  no_move : Moves before before
  move : {mid after : Session} → Moves before mid → Move mid after → Moves before after

pub view-erase :
    (id j : ℕ) (ms : List InFlightPublish)
    → IsDistinct identifier_of ms
    → view (erase identifier_of id ms) j ≡ update (view ms) id none j
unfolding view
view-erase id j ms d = elim (Bool-cases (j == id)) [
  | inl t ↦
      let q : j ≡ id = ground arith in
      let u : (id == id) ≡ true = ground arith in rw q (simp (u, find-erase identifier_of id ms d))
  | inr f ↦ simp f (ap state_of (find-erase_other identifier_of id j ms (ground arith)))
]

find-append_last :
    (ms : List InFlightPublish) (m : InFlightPublish) (j : ℕ)
    → find identifier_of j (ms ++ m ∷ [])
      ≡ option_case
          (find identifier_of j ms)
          (if identifier_of m == j then some m else none)
          (λ x. some x)
unfolding find
find-append_last [] m j = refl
find-append_last (x ∷ xs) m j = elim (Bool-cases (identifier_of x == j)) [
  | inl t ↦ simp t
  | inr f ↦ simp f (find-append_last xs m j)
]

pub view-append :
    (ms : List InFlightPublish) (m : InFlightPublish) (j : ℕ)
    → find identifier_of (identifier_of m) ms ≡ none
    → view (ms ++ m ∷ []) j ≡ update (view ms) (identifier_of m) (some m.state) j
unfolding view
view-append ms m j new = elim (Bool-cases (j == identifier_of m)) [
  | inl t ↦
      let q : j ≡ identifier_of m = ground arith in
      let u : (identifier_of m == identifier_of m) ≡ true = ground arith in
      rw q (simp (find-append_last ms m (identifier_of m), new, u))
  | inr f ↦
      let u : (identifier_of m == j) ≡ false = ground arith in
      elim (Option-cases (find identifier_of j ms)) [
        | inl e ↦ simp (f, u, find-append_last ms m j, e)
        | inr (x, e) ↦ simp (f, u, find-append_last ms m j, e)
      ]
]

-- The assignment of a state through the iterator.
abbrev pub with_state : PublishState → InFlightPublish → InFlightPublish
with_state s m = record m { state = s }

find-assign :
    (s : PublishState) (id j : ℕ) (ms : List InFlightPublish)
    → find identifier_of j (assign identifier_of (with_state s) id ms)
      ≡ option_case
          (find identifier_of j ms)
          none
          (λ x. some (if j == id then with_state s x else x))
unfolding find assign
find-assign s id j [] = refl
find-assign s id j (x ∷ xs) = elim (Bool-cases (identifier_of x == id)) [
  | inl t ↦ elim (Bool-cases (identifier_of x == j)) [
    | inl u ↦ let v : (j == id) ≡ true = ground arith in simp (t, u, v)
    | inr u ↦
        let v : (j == id) ≡ false = ground arith in
        elim (Option-cases (find identifier_of j xs)) [
          | inl e ↦ simp (t, u, e)
          | inr (y, e) ↦ simp (t, u, e, v)
        ]
  ]
  | inr f ↦ elim (Bool-cases (identifier_of x == j)) [
    | inl u ↦ let v : (j == id) ≡ false = ground arith in simp (f, u, v)
    | inr u ↦ simp (f, u) (find-assign s id j xs)
  ]
]

pub view-assign :
    (s : PublishState) (id j : ℕ) (ms : List InFlightPublish) (m : InFlightPublish)
    → find identifier_of id ms ≡ some m
    → view (assign identifier_of (with_state s) id ms) j ≡ update (view ms) id (some s) j
unfolding view
view-assign s id j ms m e = elim (Bool-cases (j == id)) [
  | inl t ↦
      let q : j ≡ id = ground arith in
      let u : (id == id) ≡ true = ground arith in rw q (simp (find-assign s id id ms, e, u))
  | inr f ↦ elim (Option-cases (find identifier_of j ms)) [
    | inl n ↦ simp (find-assign s id j ms, n, f)
    | inr (x, n) ↦ simp (find-assign s id j ms, n, f)
  ]
]
