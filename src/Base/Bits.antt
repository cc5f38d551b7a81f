-- ===== src/Base/Bits.antt =====
-- Masks of one byte as arithmetic, each a table that is checked by evaluation.
use Prim.Native.Nat.{ℕ, zero, suc, ◌+◌, ◌*◌, ◌/◌, ◌%◌, ◌<◌, bit_and, bit_or}
use mathlib.Core.Path.{◌≡◌, refl}
use mathlib.Core.Bool.{Bool, true, ◌&&◌}
use native.Mathlib.Omega.{arith}
use mqtt.Base.Tests.{◌==◌}

module _ (f g : ℕ → ℕ) where
  same_below : ℕ → Bool
  same_below zero = true
  same_below (suc n) = f n == g n && same_below n

  same_below→eq : (n : ℕ) → same_below n ≡ true → (i : ℕ) → i < n → f i ≡ g i
  unfolding same_below
  same_below→eq zero e i h = absurd (omega arith)
  same_below→eq (suc n) e i h = ground (arith, same_below→eq n (ground arith) i)

pub bit_and-127 : (b : ℕ) → b < 256 → bit_and b 127 ≡ b % 128
unfolding same_below
bit_and-127 = same_below→eq (λ b. bit_and b 127) (λ b. b % 128) 256 refl

pub bit_and-128 : (b : ℕ) → b < 256 → bit_and b 128 ≡ b / 128 * 128
unfolding same_below
bit_and-128 = same_below→eq (λ b. bit_and b 128) (λ b. b / 128 * 128) 256 refl

pub bit_or-128 : (b : ℕ) → b < 128 → bit_or b 128 ≡ b + 128
unfolding same_below
bit_or-128 = same_below→eq (λ b. bit_or b 128) (λ b. b + 128) 128 refl

pub bit_and-15 : (b : ℕ) → b < 256 → bit_and b 15 ≡ b % 16
unfolding same_below
bit_and-15 = same_below→eq (λ b. bit_and b 15) (λ b. b % 16) 256 refl

pub bit_and-240 : (b : ℕ) → b < 256 → bit_and b 240 ≡ b / 16 * 16
unfolding same_below
bit_and-240 = same_below→eq (λ b. bit_and b 240) (λ b. b / 16 * 16) 256 refl

or_halves : (b : ℕ) → b < 256 → bit_or (b / 16 * 16) (b % 16) ≡ b
unfolding same_below
or_halves = same_below→eq (λ b. bit_or (b / 16 * 16) (b % 16)) (λ b. b) 256 refl

-- The two halves of a byte, joined by `|`.
pub bit_or_halves : (hi lo : ℕ) → hi < 16 → lo < 16 → bit_or (hi * 16) lo ≡ hi * 16 + lo
bit_or_halves hi lo h l =
    let e1 : (hi * 16 + lo) / 16 ≡ hi = omega arith in
    let e2 : (hi * 16 + lo) % 16 ≡ lo = omega arith in
    rw (e1, e2) at (or_halves (hi * 16 + lo) (omega arith))
