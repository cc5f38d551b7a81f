-- ===== src/Base/Outcome.antt =====
-- What a call returns or throws.
use mathlib.Core.Path.{◌≡◌, refl}
use mathlib.Core.Logic.{◌⊎◌, inl, inr}

-- `undefined_read` is no exception: it is a read past the end of the data, which C++ leaves
-- undefined, `out_of_fuel` is a loop of the model that was given too few rounds, and `stream_ended` is
-- the `set_done` of a read of the stream, `write_failed` an error of a write to it, and `assertion_failed` an `assert` that does not hold. The others are the throw expressions of include/mqtt5.
pub data Error : Type 0 where
  undefined_read : Error
  not_enough_data : Error
  data_overflow : Error
  value_exceeds_max : Error
  not_enough_bytes : Error
  mismatched_set : Error
  mismatched_get : Error
  not_mqtt : Error
  unknown_packet_type : Error
  stream_ended : Error
  write_failed : Error
  assertion_failed : Error
  out_of_fuel : Error

pub data Result {ℓ} (A : Type ℓ) : Type ℓ where
  ok : A → Result A
  err : Error → Result A

infixl 5 ◌>>=◌
abbrev pub ◌>>=◌ {ℓ κ} : {A : Type ℓ} {B : Type κ} → Result A → (A → Result B) → Result B
ok a >>= f = f a
err e >>= f = err e

pub Result-cases {ℓ} :
    {A : Type ℓ} (r : Result A) → ((a : A) × (r ≡ ok a)) ⊎ ((e : Error) × (r ≡ err e))
Result-cases (ok a) = inl (a, refl)
Result-cases (err e) = inr (e, refl)
