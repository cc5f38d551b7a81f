-- ===== src/Wire/Stream/Laws.antt =====
-- What is in the buffer when a read is done, however the bytes arrive.
use mqtt.Base.{
  ℕ, zero, suc, ◌<◌, ◌≤◌, ◌≡◌, sym, ◌∙◌, ap, List, ◌++◌, none, some, Result, ok, ◌==◌, length,
  arith, length-append, append_assoc, append-nil, append-split, Option-cases, Bool-cases, inl, inr,
}
use mqtt.Wire.Stream.{Source, IsSource, prepared, get_data_until, lacking, get_data}

module _ {ℓ} {S : Type ℓ} (source : Source S) (law : IsSource source) where
  -- What a read that stops on `front` and no sooner leaves: `front`, some bytes that came with it in
  -- the buffer, and the others in the stream.
  abbrev pub Fetched : Result (List ℕ × S) → List ℕ → List ℕ → S → Type ℓ
  Fetched r front rest s =
      (extra : List ℕ) × (s' : S) × (r ≡ ok (front ++ extra, s'))
      × (extra ++ law.pending s' ≡ rest)
      × (law.reads_left s' ≤ law.reads_left s)

  -- A read of one more piece keeps the bytes in order.
  piece :
      (n : ℕ) (buffer bytes whole : List ℕ) (s s' : S)
      → source.read_some n s ≡ some (bytes, s')
      → buffer ++ law.pending s ≡ whole
      → (buffer ++ bytes) ++ law.pending s' ≡ whole
  piece n buffer bytes whole s s' r e =
      append_assoc buffer bytes (law.pending s')
      ∙ ap (◌++◌ buffer) (sym (law.in_order n s s' bytes r))
      ∙ e

  module _ (front rest : List ℕ) (predicate : List ℕ → ℕ)
      (content : (extra : List ℕ) → predicate (front ++ extra) ≡ 0)
      (whole : (b t : List ℕ)
        → b ++ t ≡ front ++ rest
        → predicate b ≡ 0
        → length front ≤ length b) where
    content-Fetched :
        (buffer : List ℕ) (s : S)
        → buffer ++ law.pending s ≡ front ++ rest
        → predicate buffer ≡ 0
        → Fetched (ok (buffer, s)) front rest s
    content-Fetched buffer s e p =
        let (extra, e1, e2) =
          append-split buffer (law.pending s) front rest e (whole buffer (law.pending s) e p) in
        (extra, s, ap (λ b. ok (b, s)) e1, e2, omega arith)

    -- The whole of `front` is there when the stream has ended.
    ended :
        (n : ℕ) (buffer : List ℕ) (s : S)
        → buffer ++ law.pending s ≡ front ++ rest
        → source.read_some n s ≡ none
        → predicate buffer ≡ 0
    ended n buffer s e r =
        let e1 : buffer ≡ front ++ rest =
          sym (append-nil buffer) ∙ ap (◌++◌ buffer) (sym (law.ends_empty n s r)) ∙ e in
        rw e1 (content rest)

    -- If a predicate is content with data exactly when they hold a given front of the bytes to
    -- come, get_data_until ends with that front in the buffer and loses and reorders nothing,
    -- however the stream delivers the bytes; fuel for more rounds than reads is enough.
    pub get_data_until-Fetched :
        (fuel : ℕ) (buffer : List ℕ) (s : S)
        → law.reads_left s < fuel
        → buffer ++ law.pending s ≡ front ++ rest
        → Fetched (get_data_until source fuel predicate buffer s) front rest s
    unfolding get_data_until
    get_data_until-Fetched zero buffer s enough e = absurd (omega arith)
    get_data_until-Fetched (suc fuel) buffer s enough e =
        elim (Bool-cases (predicate buffer == 0)) [
          | inl t ↦ simp t (content-Fetched buffer s e (ground arith))
          | inr f ↦
              let n = prepared source (predicate buffer) in
              elim (Option-cases (source.read_some n s)) [
                | inl r ↦ absurd (ground (arith, ended n buffer s e r))
                | inr ((bytes, s'), r) ↦
                    let less = law.finite n s s' bytes (ground arith) r in
                    let (extra, s'', e1, e2, le) =
                      get_data_until-Fetched fuel (buffer ++ bytes) s' (omega arith)
                        (piece n buffer bytes (front ++ rest) s s' r e) in
                    simp (f, r) (extra, s'', e1, e2, omega arith)
              ]
        ]

  -- Enough bytes are the first `length front` of what is to come.
  pub get_data-Fetched :
      (front rest : List ℕ) (fuel : ℕ) (buffer : List ℕ) (s : S)
      → law.reads_left s < fuel
      → buffer ++ law.pending s ≡ front ++ rest
      → Fetched (get_data source fuel (length front) buffer s) front rest s
  unfolding get_data lacking
  get_data-Fetched front rest =
      get_data_until-Fetched front rest (lacking source (length front))
        (λ extra. ground (arith, length-append front extra)) (λ b t e p. ground arith)
