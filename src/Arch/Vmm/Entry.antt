-- ===== src/Arch/Vmm/Entry.antt =====
-- Page-table entries as arithmetic, the processor's walk, and entries after a store.
use kess_os.Base.{ℕ, ◌+◌, ◌-◌, ◌*◌, ◌/◌, ◌%◌, ◌^◌, ◌≤◌, ◌<◌, ◌≡◌, ◌≢◌, ◌⊎◌, inl, inr}
use kess_os.Base.{true, false, Option, none, some, arith, dec_lt, ◌==◌, if◌then◌else◌}
use kess_os.Base.{bit_and, bit_or, bit_and_mask, bit_and_shifted, bit_or_fields}
use kess_os.Ram.{Ram, load64, store64}
use kess_os.Ram.Laws.{load-store_ne, load64-store64, load-cong, load-eq-zero}
use kess_os.Util.Bytes.{memzero}
use kess_os.Util.Bytes.Laws.{memzero_lem}
use kess_os.Arch.Vmm.{page_addr_mask, flags, is_absent}

-- The physical address in an entry: its bits 12 to 51.
abbrev pub frame : ℕ → ℕ
frame e = e / 4096 % 2 ^ 40 * 4096

abbrev pub IsPresent : ℕ → Type 0
IsPresent e = e % 2 ≡ 1

abbrev pub entry_at : Ram → (table i : ℕ) → ℕ
entry_at m table i = load64 m (table + 8 * i)

-- One level of the processor's walk.
unfoldable pub walk_level : Ram → (i : ℕ) → ℕ → Option ℕ
walk_level m i table = let e = entry_at m table i in if e % 2 == 1 then some (frame e) else none

infixl 5 ◌>>=◌
abbrev pub ◌>>=◌ : Option ℕ → (ℕ → Option ℕ) → Option ℕ
none >>= k = none
some x >>= k = k x

-- The address that the processor reaches for `logical` through the top table at `pml4`.
unfoldable pub translate : Ram → (pml4 logical : ℕ) → Option ℕ
unfolding walk_level
translate m pml4 logical = do
  pdpt ← walk_level m (logical / 2 ^ 39 % 512) pml4
  pdt ← walk_level m (logical / 2 ^ 30 % 512) pdpt
  pt ← walk_level m (logical / 2 ^ 21 % 512) pdt
  page ← walk_level m (logical / 2 ^ 12 % 512) pt
  some (page + logical % 4096)

pub bit_and-frame : (e : ℕ) → bit_and e page_addr_mask ≡ frame e
bit_and-frame e = omega (arith, bit_and_shifted 12 e (2 ^ 40 - 1), bit_and_mask 40 (e / 4096))

pub entry-flags : (e : ℕ) → bit_or (bit_and e page_addr_mask) flags ≡ frame e + 7
entry-flags e = rw bit_and-frame (bit_or_fields 12 (e / 4096 % 2 ^ 40) 7 (omega arith))

pub idx_mask : (x : ℕ) → bit_and x 0x1ff ≡ x % 512
idx_mask x = bit_and_mask 9 x

pub is_absent-false : (m : Ram) (a : ℕ) → is_absent m a ≡ false → IsPresent (load64 m a)
unfolding is_absent
is_absent-false m a h = ground (arith, bit_and_mask 1 (load64 m a))

pub is_absent-true : (m : Ram) (a : ℕ) → is_absent m a ≡ true → load64 m a % 2 ≡ 0
unfolding is_absent
is_absent-true m a h = ground (arith, bit_and_mask 1 (load64 m a))

-- Entries of two tables, or two entries of one, do not overlap.
apart :
    (p q i j : ℕ)
    → p % 4096 ≡ 0
    → q % 4096 ≡ 0
    → i < 512
    → j < 512
    → p + 8 * i ≢ q + 8 * j
    → (q + 8 * j + 8 ≤ p + 8 * i) ⊎ (p + 8 * i + 8 ≤ q + 8 * j)
apart p q i j hp hq hi hj ne = elim (dec_lt (p + 8 * i) (q + 8 * j)) [
  | yes l ↦ inr (omega arith)
  | no l ↦ inl (omega arith)
]

outside_page :
    (p q i : ℕ)
    → p % 4096 ≡ 0
    → q % 4096 ≡ 0
    → i < 512
    → p ≢ q
    → (p + 8 * i + 8 ≤ q) ⊎ (q + 4096 ≤ p + 8 * i)
outside_page p q i hp hq hi ne = elim (dec_lt p q) [
  | yes l ↦ inl (omega arith)
  | no l ↦ inr (omega arith)
]

pub entry-set_self : (m : Ram) (p i w : ℕ) → w < 2 ^ 64 → entry_at (store64 m (p + 8 * i) w) p i ≡ w
entry-set_self m p i w h = load64-store64 m (p + 8 * i) w h

pub entry-set_ne :
    (m : Ram) (p q i j w : ℕ)
    → p % 4096 ≡ 0
    → q % 4096 ≡ 0
    → i < 512
    → j < 512
    → p + 8 * i ≢ q + 8 * j
    → entry_at (store64 m (p + 8 * i) w) q j ≡ entry_at m q j
entry-set_ne m p q i j w hp hq hi hj ne =
    load-store_ne 8 8 m (p + 8 * i) w (q + 8 * j) (apart p q i j hp hq hi hj ne)

pub entry-memzero_self : (m : Ram) (p i : ℕ) → i < 512 → entry_at (memzero m p 4096) p i ≡ 0
entry-memzero_self m p i h =
    load-eq-zero 8 (memzero m p 4096) (p + 8 * i)
      (λ x a b. (memzero_lem m p 4096 (omega arith)).0 x (omega arith) (omega arith))

pub entry-memzero_ne :
    (m : Ram) (p q i : ℕ)
    → p % 4096 ≡ 0
    → q % 4096 ≡ 0
    → i < 512
    → p ≢ q
    → entry_at (memzero m q 4096) p i ≡ entry_at m p i
entry-memzero_ne m p q i hp hq hi ne = load-cong 8 (memzero m q 4096) m (p + 8 * i) (λ x a b.
    (memzero_lem m q 4096 (omega arith)).1 x (away x a b (outside_page p q i hp hq hi ne)))
  where
    away :
        (x : ℕ)
        → p + 8 * i ≤ x
        → x < p + 8 * i + 8
        → (p + 8 * i + 8 ≤ q) ⊎ (q + 4096 ≤ p + 8 * i)
        → (x < q) ⊎ (q + 4096 ≤ x)
    away x a b (inl l) = inl (omega arith)
    away x a b (inr l) = inr (omega arith)
