-- ===== src/Examples/Fetchers.antt =====
-- The fetchers on the same bytes.
use mqtt.Base.{ℕ, ◌≡◌, refl, List, [], ◌∷◌, arith, drop}
use mqtt.Wire.Fetchers.{
  FlatBuffer, stream_fetcher, vector_fetcher, Span, shown, span_fetcher, Fetch, asks, sees, passes,
  run_fetches,
}
use mqtt.Wire.Fetchers.Agree.{fetchers_agree}

-- A buffer that is its bytes.
abbrev flat : FlatBuffer (List ℕ)
flat = record { cdata = λ b. b; consume = drop }

abbrev span : Span
span = record { memory = 9 ∷ 1 ∷ 2 ∷ 3 ∷ 9 ∷ []; front = 1; count = 3 }

abbrev steps : List Fetch
steps = sees 2 ∷ passes 1 ∷ asks ∷ sees 2 ∷ passes 5 ∷ asks ∷ []

fetchers_agree_example :
    (run_fetches (stream_fetcher flat) steps (1 ∷ 2 ∷ 3 ∷ [])
      ≡ run_fetches vector_fetcher steps (shown span))
    × (run_fetches span_fetcher steps span ≡ run_fetches vector_fetcher steps (shown span))
fetchers_agree_example =
    fetchers_agree flat steps (1 ∷ 2 ∷ 3 ∷ []) span (λ n b. refl) (omega arith) refl
