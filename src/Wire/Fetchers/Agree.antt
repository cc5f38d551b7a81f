-- ===== src/Wire/Fetchers/Agree.antt =====
-- A reader cannot tell the three fetchers apart.
use mqtt.Base.{
  ℕ, ◌+◌, ◌-◌, ◌≤◌, ◌≡◌, refl, sym, ap, ◌∙◌, List, [], ◌∷◌, ltb, length, take, drop, arith, ok,
  length-drop, length-take, take-take, drop-take, drop-drop, Bool-cases, inl, inr,
}
use mqtt.Wire.Fetcher
use mqtt.Wire.Fetcher.{consume-drop}
use mqtt.Wire.Fetchers.{
  DataFetcher, FlatBuffer, stream_fetcher, vector_fetcher, Span, shown, span_fetcher, Fetch, asks,
  sees, passes, run_fetches,
}

-- A fetcher shows some bytes, and its operations are those of the vector of these bytes.
pub record IsFetcher {ℓ} {F : Type ℓ} (fetcher : DataFetcher F) (IsValid : F → Type 0)
    (contents : F → List ℕ) : Type ℓ where
  pub sizes : (f : F) → IsValid f → fetcher.size f ≡ length (contents f)
  pub spans : (n : ℕ) (f : F) → IsValid f → fetcher.cspan n f ≡ Fetcher.cspan n (contents f)
  pub valid : (n : ℕ) (f : F) → IsValid f → IsValid (fetcher.consume n f)
  pub consumes :
      (n : ℕ) (f : F) → IsValid f → contents (fetcher.consume n f) ≡ Fetcher.consume n (contents f)

module _ {ℓ} {F : Type ℓ} (fetcher : DataFetcher F) (IsValid : F → Type 0) (contents : F → List ℕ)
    (law : IsFetcher fetcher IsValid contents) where
  run_fetches-contents :
      (steps : List Fetch) (f : F)
      → IsValid f
      → run_fetches fetcher steps f ≡ run_fetches vector_fetcher steps (contents f)
  unfolding run_fetches vector_fetcher
  run_fetches-contents [] f v = refl
  run_fetches-contents (asks ∷ steps) f v = rw (run_fetches-contents steps f v, law.sizes f v) refl
  run_fetches-contents (sees n ∷ steps) f v =
      rw (run_fetches-contents steps f v, law.spans n f v) refl
  run_fetches-contents (passes n ∷ steps) f v =
      run_fetches-contents steps (fetcher.consume n f) (law.valid n f v)
      ∙ ap (run_fetches vector_fetcher steps) (law.consumes n f v)

-- What Boost's documentation says of `consume`: bytes are removed from the beginning, all of them where
-- there are fewer.
abbrev pub Consumes {ℓ} : {B : Type ℓ} → FlatBuffer B → Type ℓ
Consumes {B = B} flat = (n : ℕ) (b : B) → flat.cdata (flat.consume n b) ≡ drop n (flat.cdata b)

stream-IsFetcher {ℓ} :
    {B : Type ℓ} (flat : FlatBuffer B)
    → Consumes flat
    → IsFetcher (stream_fetcher flat) (λ b. Unit {0}) flat.cdata
unfolding stream_fetcher Fetcher.cspan
stream-IsFetcher flat consumed = record {
  sizes = λ b v. refl;
  spans = λ n b v. refl;
  valid = λ n b v. tt;
  consumes = λ n b v. consumed n b ∙ sym (consume-drop n (flat.cdata b));
}

-- A span lies within its memory.
abbrev pub IsWithin : Span → Type 0
IsWithin s = s.front + s.count ≤ length s.memory

length-shown : (s : Span) → IsWithin s → length (shown s) ≡ s.count
length-shown s w =
    length-take s.count (drop s.front s.memory) (omega (arith, length-drop s.front s.memory))

span_spans : (n : ℕ) (s : Span) → IsWithin s → span_fetcher.cspan n s ≡ Fetcher.cspan n (shown s)
unfolding span_fetcher Fetcher.cspan
span_spans n s w = elim (Bool-cases (ltb s.count n)) [
  | inl t ↦ rw (length-shown s w, t) refl
  | inr f ↦
      rw (length-shown s w, f)
        (ap ok (sym (take-take n s.count (drop s.front s.memory) (ground arith))))
]

span_valid : (n : ℕ) (s : Span) → IsWithin s → IsWithin (span_fetcher.consume n s)
unfolding span_fetcher
span_valid n s w = ground arith

span_consumes :
    (n : ℕ) (s : Span) → IsWithin s → shown (span_fetcher.consume n s) ≡ Fetcher.consume n (shown s)
unfolding span_fetcher Fetcher.consume
span_consumes n s w = elim (Bool-cases (ltb n s.count)) [
  | inl t ↦
      rw (length-shown s w, t)
        (ap (take (s.count - n)) (sym (drop-drop n s.front s.memory))
          ∙ sym (drop-take n s.count (drop s.front s.memory)))
  | inr f ↦ rw (length-shown s w, f) refl
]

span-IsFetcher : IsFetcher span_fetcher IsWithin shown
unfolding span_fetcher
span-IsFetcher = record {
  sizes = λ s w. sym (length-shown s w);
  spans = span_spans;
  valid = span_valid;
  consumes = span_consumes;
}

-- Readers cannot tell the three data fetchers apart: the fetcher of a stream's buffer, whose
-- consume removes bytes from the front, and that of a span within its memory let a reader see
-- just what the fetcher of a vector with the same bytes does, errors included.
pub fetchers_agree {ℓ} :
    {B : Type ℓ} (flat : FlatBuffer B) (steps : List Fetch) (b : B) (s : Span)
    → Consumes flat
    → IsWithin s
    → flat.cdata b ≡ shown s
    → (run_fetches (stream_fetcher flat) steps b ≡ run_fetches vector_fetcher steps (shown s))
      × (run_fetches span_fetcher steps s ≡ run_fetches vector_fetcher steps (shown s))
fetchers_agree flat steps b s consumed w same = (
  run_fetches-contents (stream_fetcher flat) (λ b. Unit) flat.cdata (stream-IsFetcher flat consumed)
        steps b tt
      ∙ ap (run_fetches vector_fetcher steps) same,
  run_fetches-contents span_fetcher IsWithin shown span-IsFetcher steps s w,
)
