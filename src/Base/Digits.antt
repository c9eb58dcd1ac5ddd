-- ===== src/Base/Digits.antt =====
-- One equation for the lowest binary digit of each native bit operation.
use Prim.Native.Nat.{ℕ, zero, suc, ◌+◌, ◌-◌, ◌*◌, ◌/◌, ◌%◌, ◌≤◌, min, max, digits, bitwise, bit_and}
use Prim.Native.Nat.{bit_or, bit_and-bitwise, bit_or-bitwise}
use mathlib.Core.Path.{◌≡◌, refl, ap}
use native.Mathlib.Nat.{le_refl}
use native.Mathlib.Omega.{arith}

module _ (z : ℕ → ℕ) (f : ℕ → ℕ → ℕ) where
  digits_none : (fuel b : ℕ) → digits z f fuel zero b ≡ z b
  digits_none zero b = refl
  digits_none (suc fuel) b = refl

  -- Fuel beyond the number changes nothing.
  spare_fuel : (spare n a b : ℕ) → a ≤ n → digits z f (n + spare) a b ≡ digits z f n a b
  spare_fuel spare n zero b h = rw (digits_none (n + spare) b, digits_none n b) refl
  spare_fuel spare zero (suc a) b h = absurd (omega arith)
  spare_fuel spare (suc n) (suc a) b h =
      let more : suc n + spare ≡ suc (n + spare) = omega arith in
      rw more (
        ap (λ t. t * 2 + f (suc a % 2) (b % 2))
          (spare_fuel spare n (suc a / 2) (b / 2) (omega arith)))

  lowest_digit :
      (a b : ℕ)
      → bitwise z f (suc a) b ≡ f (suc a % 2) (b % 2) + 2 * bitwise z f (suc a / 2) (b / 2)
  lowest_digit a b =
      let half = suc a / 2 in
      let split : half + (a - half) ≡ a = omega arith in
      let enough = spare_fuel (a - half) half half (b / 2) (le_refl _) in
      omega (arith, rw split at enough)

-- Each operation is `bitwise` at a base function, by the library's equation.
pub and_digit : (a b : ℕ) → bit_and a b ≡ min (a % 2) (b % 2) + 2 * bit_and (a / 2) (b / 2)
and_digit (suc a) b = rw (bit_and-bitwise, bit_and-bitwise) (lowest_digit (λ _. 0) min a b)
and_digit zero b = rw (bit_and-bitwise, bit_and-bitwise) (omega arith)

pub or_digit : (a b : ℕ) → bit_or a b ≡ max (a % 2) (b % 2) + 2 * bit_or (a / 2) (b / 2)
or_digit (suc a) b = rw (bit_or-bitwise, bit_or-bitwise) (lowest_digit (λ m. m) max a b)
or_digit zero b = rw (bit_or-bitwise, bit_or-bitwise) (omega arith)
