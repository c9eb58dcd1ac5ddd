-- ===== src/Util/Text/Reverse.antt =====
-- The swaps from both ends reverse the bytes between them.
use kess_os.Base.{ℕ, zero, suc, ◌+◌, ◌-◌, ◌*◌, ◌≤◌, ◌<◌, ◌≡◌, ◌≢◌, ◌⊎◌, refl, arith}
use kess_os.Base.{dec_lt, ℕ_discrete}
use kess_os.Ram.{Ram, store8}
use kess_os.Util.Text.{swap_loop}

abbrev pub IsBytes : Ram → Type 0
IsBytes m = (x : ℕ) → m x < 256

pub store8-IsBytes : (m : Ram) (a v : ℕ) → IsBytes m → IsBytes (store8 m a v)
unfolding store8
store8-IsBytes m a v h x = ground (arith, h x)

abbrev swapped : Ram → (buf j i : ℕ) → Ram
swapped m buf j i = store8 (store8 m (buf + j) (m (buf + i))) (buf + i) (m (buf + j))

swapped-IsBytes : (m : Ram) (buf j i : ℕ) → IsBytes m → IsBytes (swapped m buf j i)
swapped-IsBytes m buf j i h = store8-IsBytes _ (buf + i) _ (store8-IsBytes m (buf + j) _ h)

swapped-high : (m : Ram) (buf j i : ℕ) → IsBytes m → swapped m buf j i (buf + i) ≡ m (buf + j)
unfolding store8
swapped-high m buf j i h = ground (arith, h (buf + j))

swapped-low :
    (m : Ram) (buf j i : ℕ) → IsBytes m → j < i → swapped m buf j i (buf + j) ≡ m (buf + i)
unfolding store8
swapped-low m buf j i h l = ground (arith, h (buf + i))

swapped-ne : (m : Ram) (buf j i x : ℕ) → x ≢ buf + j → x ≢ buf + i → swapped m buf j i x ≡ m x
unfolding store8
swapped-ne m buf j i x a b = ground arith

pub swap_loop-outside :
    (fuel buf j i : ℕ) (m : Ram) (x : ℕ)
    → (x < buf + j) ⊎ (buf + i < x)
    → swap_loop fuel buf j i m x ≡ m x
unfolding swap_loop
swap_loop-outside zero buf j i m x h = refl
swap_loop-outside (suc fuel) buf j i m x h = elim (dec_lt j i) [
  | yes l ↦ ground (
    arith,
    swap_loop-outside fuel buf (j + 1) (i - 1) (swapped m buf j i) x,
    swapped-ne m buf j i x,
  )
  | no l ↦ ground arith
]

-- One swap, then the reversal of what lies between.
module _ (fuel buf j i : ℕ) (m : Ram) (bytes : IsBytes m) (l : j < i)
    (between : (k : ℕ)
      → j + 1 ≤ k
      → k ≤ i - 1
      → swap_loop fuel buf (j + 1) (i - 1) (swapped m buf j i) (buf + k)
        ≡ swapped m buf j i (buf + (i - 1 + (j + 1) - k))) where
  swap_loop-step :
      (k : ℕ) → j ≤ k → k ≤ i → swap_loop (suc fuel) buf j i m (buf + k) ≡ m (buf + (i + j - k))
  unfolding swap_loop
  swap_loop-step k p q = elim (ℕ_discrete k j) [
    | yes e ↦ ground (
      arith,
      swap_loop-outside fuel buf (j + 1) (i - 1) (swapped m buf j i) (buf + k),
      swapped-low m buf j i bytes l,
    )
    | no ne ↦ elim (ℕ_discrete k i) [
      | yes e ↦ ground (
        arith,
        swap_loop-outside fuel buf (j + 1) (i - 1) (swapped m buf j i) (buf + k),
        swapped-high m buf j i bytes,
      )
      | no ne' ↦
          ground
            (arith, between k (omega arith) (omega arith), swapped-ne m buf j i (buf + (i + j - k)))
    ]
  ]

pub swap_loop-inside :
    (fuel buf j i : ℕ) (m : Ram)
    → IsBytes m
    → i < j + 2 * fuel
    → (k : ℕ) → j ≤ k
    → k ≤ i
    → swap_loop fuel buf j i m (buf + k) ≡ m (buf + (i + j - k))
unfolding swap_loop
swap_loop-inside zero buf j i m bytes enough k p q = absurd (omega arith)
swap_loop-inside (suc fuel) buf j i m bytes enough k p q = elim (dec_lt j i) [
  | yes l ↦
      swap_loop-step fuel buf j i m bytes l
        (swap_loop-inside fuel buf (j + 1) (i - 1) (swapped m buf j i)
          (swapped-IsBytes m buf j i bytes) (omega arith))
        k p q
  | no l ↦ ground arith
]
