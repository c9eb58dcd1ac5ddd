-- ===== src/Util/Text/Laws.antt =====
-- Strings in memory, `strlen`, `strncmp` and `strncpy`.
use kess_os.Base.{ℕ, zero, suc, ◌+◌, ◌<◌, ◌≡◌, ◌↔◌, ◌⊎◌, refl, arith}
use kess_os.Base.{List, [], ◌∷◌, length, some, ◌∙◌, ap, inr}
use native.Mathlib.Nat.{add-zero, add_assoc}
use kess_os.Ram.{Ram}
use kess_os.Util.Text.{strlen_loop, strlen, strncmp_loop, strncmp}

-- The string `cs` with its terminating zero lies at `p`.
abbrev pub Holds : Ram → ℕ → List ℕ → Type 0
Holds m p [] = m p ≡ 0
Holds m p (c ∷ cs) = (m p ≡ c) × Holds m (p + 1) cs

abbrev pub NonZero : List ℕ → Type 0
NonZero [] = Unit
NonZero (c ∷ cs) = (0 < c) × NonZero cs

strlen_loop-Holds :
    (fuel : ℕ) (m : Ram) (str size : ℕ) (cs : List ℕ)
    → Holds m (str + size) cs
    → NonZero cs
    → length cs < fuel
    → strlen_loop fuel m str size ≡ some (size + length cs)
unfolding strlen_loop
strlen_loop-Holds zero m str size cs h nz enough = absurd (omega arith)
strlen_loop-Holds (suc fuel) m str size [] h nz enough = ground arith
strlen_loop-Holds (suc fuel) m str size (c ∷ cs) h nz enough =
    ground (arith, strlen_loop-Holds fuel m str (size + 1) cs (rw assoc h.1) nz.1 (omega arith))
  where
    assoc : str + (size + 1) ≡ str + size + 1
    assoc = omega arith

-- `strlen` ends and counts the characters before the terminating zero, given more fuel than
-- there are characters.
pub strlen-Holds :
    (fuel : ℕ) (m : Ram) (str : ℕ) (cs : List ℕ)
    → Holds m str cs
    → NonZero cs
    → length cs < fuel
    → strlen fuel m str ≡ some (length cs)
unfolding strlen
strlen-Holds fuel m str cs h nz enough =
    strlen_loop-Holds fuel m str 0 cs (rw (add-zero str) h) nz enough ∙ ap some (omega arith)

-- The two byte strings agree in their first `n` bytes.
abbrev pub Same : Ram → (s1 s2 n : ℕ) → Type 0
Same m s1 s2 n = (j : ℕ) → j < n → m (s1 + j) ≡ m (s2 + j)

pub Same-tail : (m : Ram) (s1 s2 n : ℕ) → Same m s1 s2 (suc n) → Same m (s1 + 1) (s2 + 1) n
Same-tail m s1 s2 n h j b = rw (add_assoc s1 1 j, add_assoc s2 1 j) (h (1 + j) (omega arith))

pub Same-head : (m : Ram) (s1 s2 n : ℕ) → Same m s1 s2 (suc n) → m s1 ≡ m s2
Same-head m s1 s2 n h = rw (add-zero s1, add-zero s2) at (h 0 (omega arith))

pub Same-cons :
    (m : Ram) (s1 s2 n : ℕ) → m s1 ≡ m s2 → Same m (s1 + 1) (s2 + 1) n → Same m s1 s2 (suc n)
Same-cons m s1 s2 n e h zero b = rw (add-zero s1, add-zero s2) e
Same-cons m s1 s2 n e h (suc j) b =
    let shift1 : s1 + suc j ≡ s1 + 1 + j = omega arith in
    let shift2 : s2 + suc j ≡ s2 + 1 + j = omega arith in rw (shift1, shift2) (h j (omega arith))

strncmp_loop-Same :
    (left : ℕ) (m : Ram) (s1 s2 : ℕ)
    → 0 < s1
    → 0 < s2
    → Same m s1 s2 left
    → strncmp_loop left m s1 s2 ≡ 1
unfolding strncmp_loop
strncmp_loop-Same zero m s1 s2 a b h = refl
strncmp_loop-Same (suc left) m s1 s2 a b h = ground (
  arith,
  Same-head m s1 s2 left h,
  strncmp_loop-Same left m (s1 + 1) (s2 + 1) (omega arith) (omega arith) (Same-tail m s1 s2 left h),
)

strncmp_loop-one :
    (left : ℕ) (m : Ram) (s1 s2 : ℕ)
    → 0 < s1
    → 0 < s2
    → strncmp_loop left m s1 s2 ≡ 1
    → Same m s1 s2 left
unfolding strncmp_loop
strncmp_loop-one zero m s1 s2 a b h = λ j c. absurd (omega arith)
strncmp_loop-one (suc left) m s1 s2 a b h =
    Same-cons m s1 s2 left (ground arith)
      (strncmp_loop-one left m (s1 + 1) (s2 + 1) (omega arith) (omega arith) (ground arith))

strncmp_loop-bit :
    (left : ℕ) (m : Ram) (s1 s2 : ℕ)
    → (strncmp_loop left m s1 s2 ≡ 0) ⊎ (strncmp_loop left m s1 s2 ≡ 1)
unfolding strncmp_loop
strncmp_loop-bit zero m s1 s2 = inr refl
strncmp_loop-bit (suc left) m s1 s2 = ground (arith, strncmp_loop-bit left m (s1 + 1) (s2 + 1))

-- The kernel's `strncmp` is an equality test, not C's comparison: of two pointers that are not
-- NULL it returns 1 exactly when the first `n` bytes agree, a terminating zero or not, and 0 in
-- every other case.
pub strncmp-Same :
    (m : Ram) (s1 s2 n : ℕ)
    → 0 < s1
    → 0 < s2
    → ((strncmp m s1 s2 n ≡ 1) ↔ Same m s1 s2 n)
      × ((strncmp m s1 s2 n ≡ 0) ⊎ (strncmp m s1 s2 n ≡ 1))
unfolding strncmp
strncmp-Same m s1 s2 n a b =
    ((strncmp_loop-one n m s1 s2 a b, strncmp_loop-Same n m s1 s2 a b), strncmp_loop-bit n m s1 s2)
