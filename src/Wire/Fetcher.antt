-- ===== src/Wire/Fetcher.antt =====
-- The data fetchers of include/mqtt5/transport/data_fetcher.hpp. A fetcher is a pointer to a
-- buffer, so that a call leaves its caller the bytes that it has not consumed.
use mqtt.Base.{
  ℕ, ◌≡◌, List, [], ◌++◌, arith, ltb, if◌then◌else◌, length, take, drop, Result, ok, err,
  not_enough_data, length-append, take-append, drop-append, take-length, drop-length, drop_all,
}
use mqtt.Base

-- What a deserializer gives: its value, and the bytes that it leaves in the buffer.
abbrev pub Reader {ℓ} : Type ℓ → Type ℓ
Reader A = List ℕ → Result (A × List ℕ)

module _ {ℓ κ} {A : Type ℓ} {B : Type κ} where
  infixl 5 ◌>>=◌
  abbrev pub ◌>>=◌ : Reader A → (A → Reader B) → Reader B
  ◌>>=◌ p f span = Base.◌>>=◌ (p span) (λ (a, rest). f a rest)

abbrev pub pure {ℓ} : {A : Type ℓ} → A → Reader A
pure a span = ok (a, span)

-- A consume of all the data or more clears the buffer.
unfoldable pub consume : ℕ → List ℕ → List ℕ
consume sz span = if ltb sz (length span) then drop sz span else []

unfoldable pub cspan : ℕ → List ℕ → Result (List ℕ)
cspan sz span = if ltb (length span) sz then err not_enough_data else ok (take sz span)

-- `cspan` of `sz` bytes and then their `consume`, as each fixed-size read does.
unfoldable pub read_span : ℕ → Reader (List ℕ)
unfolding cspan consume
read_span sz span = Base.◌>>=◌ (cspan sz span) (λ front. ok (front, consume sz span))

-- Past the end a `drop` leaves nothing, so `consume` is `drop`.
pub consume-drop : (sz : ℕ) (span : List ℕ) → consume sz span ≡ drop sz span
unfolding consume
consume-drop sz span = ground (arith, drop_all sz span)

-- Reading the first of two runs of bytes.
pub read_span-append : (xs ys : List ℕ) → read_span (length xs) (xs ++ ys) ≡ ok (xs, ys)
unfolding read_span
read_span-append xs ys = ground (
  arith,
  length-append xs ys,
  take-append (length xs) xs ys,
  take-length xs,
  consume-drop (length xs) (xs ++ ys),
  drop-append (length xs) xs ys,
  drop-length xs,
)

-- A span of all that there is.
pub cspan-all : (xs : List ℕ) → cspan (length xs) xs ≡ ok xs
unfolding cspan
cspan-all xs = ground (arith, take-length xs)

-- The first of two runs of bytes, seen and passed.
pub cspan-append : (xs ys : List ℕ) → cspan (length xs) (xs ++ ys) ≡ ok xs
unfolding cspan
cspan-append xs ys =
    ground (arith, length-append xs ys, take-append (length xs) xs ys, take-length xs)

pub consume-append : (xs ys : List ℕ) → consume (length xs) (xs ++ ys) ≡ ys
consume-append xs ys = rw (
  consume-drop (length xs) (xs ++ ys),
  drop-append (length xs) xs ys (omega arith),
  drop-length xs,
)
