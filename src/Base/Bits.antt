-- ===== src/Base/Bits.antt =====
-- Masks, shifted masks and `|` of disjoint fields as arithmetic, at every width.
use Prim.Native.Nat.{ℕ, zero, suc, ◌+◌, ◌-◌, ◌*◌, ◌/◌, ◌%◌, ◌^◌, ◌<◌, bit_and, bit_or}
use mathlib.Core.Path.{◌≡◌, refl, sym, ap}
use mathlib.Core.WellFounded
use mathlib.Core.Bool.{Bool, true, ◌&&◌}
use native.Mathlib.Nat.{pow-suc, one-le-pow, mul_comm, div-add-mod, div-div-eq-div-mul}
use native.Mathlib.Omega.{arith}
use kess_os.Base.Digits.{or_digit, and_digit}
use kess_os.Base.Order.{lt_wf}

-- To prove a statement of every number, go from the half to the whole.
by_halves : (P : ℕ → Type 0) → P 0 → ((n : ℕ) → P (n / 2) → P n) → (a : ℕ) → P a
by_halves P base whole a = WellFounded.induction lt_wf a go
  where
    go : (n : ℕ) → ((m : ℕ) → m < n → P m) → P n
    go zero below = base
    go (suc n) below = whole (suc n) (below (suc n / 2) (omega arith))

no_bits : (a : ℕ) → (bit_or a 0 ≡ a) × (bit_and a 0 ≡ 0)
no_bits =
    by_halves (λ a. (bit_or a 0 ≡ a) × (bit_and a 0 ≡ 0)) (refl, refl)
      λ n half. (omega (arith, or_digit n 0, half.0), omega (arith, and_digit n 0, half.1))

pow_doubles : (x k : ℕ) → x * 2 ^ suc k ≡ x * 2 ^ k * 2
pow_doubles x k = omega (arith, ap (λ (power : ℕ). x * power) (pow-suc 2 k))

div-two-pow-suc : (a k : ℕ) → a / 2 ^ suc k ≡ a / 2 / 2 ^ k
div-two-pow-suc a k = rw (pow-suc, mul_comm (2 ^ k) 2) (sym (div-div-eq-div-mul a 2 (2 ^ k)))

mod-two-pow-suc : (a k : ℕ) → a % 2 ^ suc k ≡ a / 2 % 2 ^ k * 2 + a % 2
mod-two-pow-suc a k = ground (
  arith,
  div-add-mod a (2 ^ suc k),
  div-add-mod (a / 2) (2 ^ k),
  div-two-pow-suc a k,
  pow_doubles (a / 2 / 2 ^ k) k,
)

-- A mask of the `k` low bits is the remainder by `2 ^ k`.
pub bit_and_mask : (k a : ℕ) → bit_and a (2 ^ k - 1) ≡ a % 2 ^ k
bit_and_mask zero a = omega (arith, (no_bits a).1)
bit_and_mask (suc k) a =
    let mask : 2 ^ suc k - 1 ≡ (2 ^ k - 1) * 2 + 1 = omega (arith, pow-suc 2 k, one-le-pow k 2) in
    rw mask (
      omega (
        arith,
        and_digit a ((2 ^ k - 1) * 2 + 1),
        bit_and_mask k (a / 2),
        mod-two-pow-suc a k,
        ap (λ (t : ℕ). bit_and (a / 2) t) (half_mask (2 ^ k - 1)),
      ))
  where
    half_mask : (x : ℕ) → (x * 2 + 1) / 2 ≡ x
    half_mask x = omega arith

-- A mask whose `k` low bits are clear does not read the `k` low bits.
pub bit_and_shifted : (k a m : ℕ) → bit_and a (m * 2 ^ k) ≡ bit_and (a / 2 ^ k) m * 2 ^ k
bit_and_shifted zero a m = ground arith
bit_and_shifted (suc k) a m = ground (
  arith,
  and_digit a (m * 2 ^ suc k),
  pow_doubles m k,
  pow_doubles (bit_and (a / 2 / 2 ^ k) m) k,
  bit_and_shifted k (a / 2) m,
  div-two-pow-suc a k,
)

-- A field above the `k` low bits does not touch the `k` low bits.
pub bit_or_shifted : (k a m : ℕ) → bit_or a (m * 2 ^ k) ≡ bit_or (a / 2 ^ k) m * 2 ^ k + a % 2 ^ k
bit_or_shifted zero a m = ground arith
bit_or_shifted (suc k) a m = ground (
  arith,
  or_digit a (m * 2 ^ suc k),
  pow_doubles m k,
  pow_doubles (bit_or (a / 2 / 2 ^ k) m) k,
  bit_or_shifted k (a / 2) m,
  div-two-pow-suc a k,
  mod-two-pow-suc a k,
)

-- `(q << k) | r` is a sum when `r` fits `k` bits: the fields do not meet.
pub bit_or_fields : (k q r : ℕ) → r < 2 ^ k → bit_or (q * 2 ^ k) r ≡ q * 2 ^ k + r
bit_or_fields k = fields k
  where
    double : (q k : ℕ) → (q * 2 ^ suc k % 2 ≡ 0) × (q * 2 ^ suc k / 2 ≡ q * 2 ^ k)
    double q k = (omega (arith, pow_doubles q k), omega (arith, pow_doubles q k))

    fields : (k q r : ℕ) → r < 2 ^ k → bit_or (q * 2 ^ k) r ≡ q * 2 ^ k + r
    fields zero q r small =
        let none_left : r ≡ 0 = omega arith in
        let whole : q * 2 ^ 0 ≡ q = omega arith in
        rw (none_left, whole) (omega (arith, (no_bits q).0))
    fields (suc k) q r small =
        let rest = fields k q (r / 2) (omega (arith, pow-suc 2 k)) in
        omega (
          arith,
          or_digit (q * 2 ^ suc k) r,
          double q k,
          pow_doubles q k,
          rest,
          ap (λ (t : ℕ). bit_or t (r / 2)) ((double q k).1),
        )

-- A test that is run on every number below a bound.
unfoldable pub check_below : ℕ → (ℕ → Bool) → Bool
check_below zero passes = true
check_below (suc bound) passes = check_below bound passes && passes bound

pub checked_below :
    (bound : ℕ) (passes : ℕ → Bool) (i : ℕ)
    → check_below bound passes ≡ true
    → i < bound
    → passes i ≡ true
unfolding check_below
checked_below (suc bound) passes i all lt = ground (arith, checked_below bound passes i)
checked_below zero passes i all lt = absurd (omega arith)
