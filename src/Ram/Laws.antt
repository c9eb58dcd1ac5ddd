-- ===== src/Ram/Laws.antt =====
-- Loads after stores.
use kess_os.Base.{ℕ, zero, suc, ◌+◌, ◌*◌, ◌/◌, ◌%◌, ◌^◌, ◌≤◌, ◌<◌, ◌≡◌, ◌≢◌, ◌⊎◌, inl, inr, refl}
use kess_os.Base.{arith, sym, ap₂, ap}
use native.Mathlib.Nat.{pow-suc, mul_comm, div-add-mod, div-div-eq-div-mul}
use kess_os.Ram.{Ram, store8, load, store}

pub store8-ne : (m : Ram) (a v x : ℕ) → a ≢ x → store8 m a v x ≡ m x
unfolding store8
store8-ne m a v x h = ground arith

pub store8_self : (m : Ram) (a v : ℕ) → store8 m a v a ≡ v % 256
unfolding store8
store8_self m a v = ground arith

-- A store changes only its own bytes.
pub store-outside : (n : ℕ) (m : Ram) (a v x : ℕ) → (x < a) ⊎ (a + n ≤ x) → store n m a v x ≡ m x
unfolding store
store-outside zero m a v x h = refl
store-outside (suc n) m a v x h =
    ground (arith, store-outside n (store8 m a v) (a + 1) (v / 256) x, store8-ne m a v x)

-- A load depends only on its own bytes.
pub load-cong :
    (n : ℕ) (m m' : Ram) (a : ℕ)
    → ((x : ℕ) → a ≤ x → x < a + n → m x ≡ m' x)
    → load n m a ≡ load n m' a
unfolding load
load-cong zero m m' a h = refl
load-cong (suc n) m m' a h =
    ap₂ (λ b w. b + 256 * w) (h a (omega arith) (omega arith))
      (load-cong n m m' (a + 1) (λ x p q. h x (omega arith) (omega arith)))

-- A store elsewhere does not change a load.
pub load-store_ne :
    (n k : ℕ) (m : Ram) (a v b : ℕ)
    → (b + n ≤ a) ⊎ (a + k ≤ b)
    → load n (store k m a v) b ≡ load n m b
load-store_ne n k m a v b h =
    load-cong n (store k m a v) m b (λ x p q. store-outside k m a v x (away x p q h))
  where
    away : (x : ℕ) → b ≤ x → x < b + n → (b + n ≤ a) ⊎ (a + k ≤ b) → (x < a) ⊎ (a + k ≤ x)
    away x p q (inl h) = inl (omega arith)
    away x p q (inr h) = inr (omega arith)

pow-mul : (n q : ℕ) → 256 ^ suc n * q ≡ 256 * (256 ^ n * q)
pow-mul n q = omega (arith, ap (λ (t : ℕ). t * q) (pow-suc 256 n))

div-pow-suc : (v n : ℕ) → v / 256 ^ suc n ≡ v / 256 / 256 ^ n
div-pow-suc v n = rw (pow-suc, mul_comm (256 ^ n) 256) (sym (div-div-eq-div-mul v 256 (256 ^ n)))

mod-pow-suc : (v n : ℕ) → v % 256 ^ suc n ≡ v % 256 + 256 * (v / 256 % 256 ^ n)
mod-pow-suc v n = ground (
  arith,
  div-add-mod v (256 ^ suc n),
  div-add-mod (v / 256) (256 ^ n),
  div-pow-suc v n,
  pow-mul n (v / 256 / 256 ^ n),
)

-- A load gives back what was stored, cut to its width.
pub load-store : (n : ℕ) (m : Ram) (a v : ℕ) → load n (store n m a v) a ≡ v % 256 ^ n
unfolding load store
load-store zero m a v = omega arith
load-store (suc n) m a v = ground (
  arith,
  load-store n (store8 m a v) (a + 1) (v / 256),
  store-outside n (store8 m a v) (a + 1) (v / 256) a,
  store8_self m a v,
  mod-pow-suc v n,
)

pub load32-store32 : (m : Ram) (a v : ℕ) → v < 2 ^ 32 → load 4 (store 4 m a v) a ≡ v
load32-store32 m a v h = omega (arith, load-store 4 m a v)

pub load64-store64 : (m : Ram) (a v : ℕ) → v < 2 ^ 64 → load 8 (store 8 m a v) a ≡ v
load64-store64 m a v h = omega (arith, load-store 8 m a v)

-- Bytes that are all zero load as zero.
pub load-eq-zero :
    (n : ℕ) (m : Ram) (a : ℕ) → ((x : ℕ) → a ≤ x → x < a + n → m x ≡ 0) → load n m a ≡ 0
unfolding load
load-eq-zero zero m a h = refl
load-eq-zero (suc n) m a h = omega (
  arith,
  h a (omega arith) (omega arith),
  load-eq-zero n m (a + 1) (λ x p q. h x (omega arith) (omega arith)),
)
