-- ===== src/Wire/Stream.antt =====
-- include/mqtt5/transport/data_fetcher.hpp: `data_reader`, which reads a stream into the buffer until
-- a predicate is content.
pub mod Laws
use mqtt.Base.{
  ℕ, zero, suc, ◌-◌, ◌<◌, ◌≡◌, List, [], ◌++◌, Option, none, some, Result, ok, err, stream_ended,
  out_of_fuel, ltb, ◌==◌, if◌then◌else◌, length,
}

-- A stream is code of Asio: it is known by its `async_read_some`, which takes the size of the buffer
-- that it may fill, and by what its documentation says of the bytes it delivers.
pub record Source {ℓ} (S : Type ℓ) : Type ℓ where
  pub read_some : ℕ → S → Option (List ℕ × S)

pub record IsSource {ℓ} {S : Type ℓ} (source : Source S) : Type ℓ where
  pub pending : S → List ℕ
  pub reads_left : S → ℕ
  pub in_order :
      (n : ℕ) (s s' : S) (bs : List ℕ)
      → source.read_some n s ≡ some (bs, s')
      → pending s ≡ bs ++ pending s'
  pub ends_empty : (n : ℕ) (s : S) → source.read_some n s ≡ none → pending s ≡ []
  pub finite :
      (n : ℕ) (s s' : S) (bs : List ℕ)
      → 0 < n
      → source.read_some n s ≡ some (bs, s')
      → reads_left s' < reads_left s

module _ {ℓ} {S : Type ℓ} (source : Source S) where
  -- The amount that a read asks for.
  abbrev pub prepared : ℕ → ℕ
  prepared amount_requested = if ltb amount_requested 64 then 64 else amount_requested

  -- `operation::start` and the `set_value` of its receiver, with fuel for the reads.
  unfoldable pub get_data_until : ℕ → (List ℕ → ℕ) → List ℕ → S → Result (List ℕ × S)
  get_data_until zero predicate buffer s =
      if predicate buffer == 0 then ok (buffer, s) else err out_of_fuel
  get_data_until (suc fuel) predicate buffer s =
      if predicate buffer == 0
      then ok (buffer, s)
      else elim (source.read_some (prepared (predicate buffer)) s) [
        | none ↦ err stream_ended
        | some (bytes, s') ↦ get_data_until fuel predicate (buffer ++ bytes) s'
      ]

  -- The predicate of `get_data`.
  unfoldable pub lacking : ℕ → List ℕ → ℕ
  lacking bytes_requested buffer =
      if ltb (length buffer) bytes_requested then bytes_requested - length buffer else 0

  unfoldable pub get_data : ℕ → ℕ → List ℕ → S → Result (List ℕ × S)
  unfolding lacking
  get_data fuel bytes_requested = get_data_until fuel (lacking bytes_requested)
