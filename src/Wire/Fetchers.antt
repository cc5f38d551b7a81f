-- ===== src/Wire/Fetchers.antt =====
-- The three fetchers of include/mqtt5/transport/data_fetcher.hpp: for the buffer of a stream, for a
-- vector of bytes, and for a span of bytes that lie elsewhere.
pub mod Agree
use mqtt.Base.{
  ℕ, ◌+◌, ◌-◌, List, [], ◌∷◌, Bool, ltb, ◌==◌, if◌then◌else◌, length, take, drop, Result, ok, err,
  not_enough_data, ◌>>=◌,
}
use mqtt.Wire.Fetcher

-- What the readers call of a fetcher.
pub record DataFetcher {ℓ} (F : Type ℓ) : Type ℓ where
  pub size : F → ℕ
  pub cspan : ℕ → F → Result (List ℕ)
  pub consume : ℕ → F → F

-- Boost's flat buffer is known by the bytes in it, and by its `consume`.
pub record FlatBuffer {ℓ} (B : Type ℓ) : Type ℓ where
  pub cdata : B → List ℕ
  pub consume : ℕ → B → B

unfoldable pub stream_fetcher {ℓ} : {B : Type ℓ} → FlatBuffer B → DataFetcher B
stream_fetcher flat = record {
  size = λ b. length (flat.cdata b);
  cspan = λ size_ b.
      if ltb (length (flat.cdata b)) size_
      then err not_enough_data
      else ok (take size_ (flat.cdata b));
  consume = flat.consume;
}

unfoldable pub vector_fetcher : DataFetcher (List ℕ)
vector_fetcher = record { size = length; cspan = Fetcher.cspan; consume = Fetcher.consume }

-- A span is a place in a memory and a number of bytes; `subspan` moves it.
pub record Span : Type 0 where
  pub memory : List ℕ
  pub front : ℕ
  pub count : ℕ

abbrev pub no_span : Span
no_span = record { memory = []; front = 0; count = 0 }

abbrev pub subspan : ℕ → Span → Span
subspan offset s = record s { front = s.front + offset; count = s.count - offset }

abbrev pub first : ℕ → Span → Span
first size_ s = record s { count = size_ }

-- The bytes that a span shows.
abbrev pub shown : Span → List ℕ
shown s = take s.count (drop s.front s.memory)

unfoldable pub span_fetcher : DataFetcher Span
span_fetcher = record {
  size = λ s. s.count;
  cspan = λ size_ s. if ltb s.count size_ then err not_enough_data else ok (shown (first size_ s));
  consume = λ sz s. if ltb sz s.count then subspan sz s else no_span;
}

-- What a reader does with a fetcher, and what it sees.
pub data Fetch : Type 0 where
  asks : Fetch
  sees passes : ℕ → Fetch

pub data Seen : Type 0 where
  how_many : ℕ → Seen
  bytes : List ℕ → Seen

module _ {ℓ} {F : Type ℓ} (fetcher : DataFetcher F) where
  unfoldable pub run_fetches : List Fetch → F → Result (List Seen)
  run_fetches [] f = ok []
  run_fetches (asks ∷ steps) f = do
    seen ← run_fetches steps f
    ok (how_many (fetcher.size f) ∷ seen)
  run_fetches (sees n ∷ steps) f = do
    span ← fetcher.cspan n f
    seen ← run_fetches steps f
    ok (bytes span ∷ seen)
  run_fetches (passes n ∷ steps) f = run_fetches steps (fetcher.consume n f)
