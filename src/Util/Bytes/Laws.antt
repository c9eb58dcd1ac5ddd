-- ===== src/Util/Bytes/Laws.antt =====
-- What `memzero` and `memcpy` leave at each address.
use kess_os.Base.{ℕ, zero, suc, ◌+◌, ◌%◌, ◌^◌, ◌≤◌, ◌<◌, ◌≡◌, ◌⊎◌, refl, arith, dec_lt}
use kess_os.Ram.{Ram, store8}
use kess_os.Ram.Laws.{store8-ne, store8_self}
use kess_os.Util.Bytes.{zero_loop, memzero, copy_loop, memcpy}

zero_loop-outside :
    (dst left i : ℕ) (m : Ram) (x : ℕ)
    → (x < dst + i) ⊎ (dst + i + left ≤ x)
    → zero_loop dst left i m x ≡ m x
unfolding zero_loop
zero_loop-outside dst zero i m x h = refl
zero_loop-outside dst (suc left) i m x h =
    ground (
      arith,
      zero_loop-outside dst left (i + 1) (store8 m (dst + i) 0) x,
      store8-ne m (dst + i) 0 x,
    )

zero_loop-inside :
    (dst left i : ℕ) (m : Ram) (x : ℕ)
    → dst + i ≤ x
    → x < dst + i + left
    → zero_loop dst left i m x ≡ 0
unfolding zero_loop
zero_loop-inside dst zero i m x h l = absurd (omega arith)
zero_loop-inside dst (suc left) i m x h l = ground (
  arith,
  zero_loop-inside dst left (i + 1) (store8 m (dst + i) 0) x,
  zero_loop-outside dst left (i + 1) (store8 m (dst + i) 0) x,
  store8_self m (dst + i) 0,
)

-- `memzero` of fewer than 2 ^ 31 bytes clears the `n` bytes from `dest` and touches no other byte.
pub memzero_lem :
    (m : Ram) (dest n : ℕ)
    → n < 2 ^ 31
    → ((x : ℕ) → dest ≤ x → x < dest + n → memzero m dest n x ≡ 0)
      × ((x : ℕ) → (x < dest) ⊎ (dest + n ≤ x) → memzero m dest n x ≡ m x)
unfolding memzero
memzero_lem m dest n small = (
  λ x p q. zero_loop-inside dest n 0 m x (omega arith) (omega arith),
  λ x h. zero_loop-outside dest n 0 m x (omega arith),
)

copy_loop-outside :
    (dch sch left i : ℕ) (m : Ram) (x : ℕ)
    → (x < dch + i) ⊎ (dch + i + left ≤ x)
    → copy_loop dch sch left i m x ≡ m x
unfolding copy_loop
copy_loop-outside dch sch zero i m x h = refl
copy_loop-outside dch sch (suc left) i m x h = ground (
  arith,
  copy_loop-outside dch sch left (i + 1) (store8 m (dch + i) (m (sch + i))) x,
  store8-ne m (dch + i) (m (sch + i)) x,
)

-- A source above the destination, or past its end, is read before it is overwritten.
copy_loop-inside :
    (dch sch left i : ℕ) (m : Ram)
    → (dch ≤ sch) ⊎ (sch + i + left ≤ dch + i)
    → (j : ℕ) → i ≤ j
    → j < i + left
    → copy_loop dch sch left i m (dch + j) ≡ m (sch + j) % 256
unfolding copy_loop
copy_loop-inside dch sch zero i m ok j p q = absurd (omega arith)
copy_loop-inside dch sch (suc left) i m ok j p q = elim (dec_lt i j) [
  | yes later ↦ ground (
    arith,
    copy_loop-inside dch sch left (i + 1) (store8 m (dch + i) (m (sch + i))) (omega arith) j,
    store8-ne m (dch + i) (m (sch + i)) (sch + j),
  )
  | no now ↦ ground (
    arith,
    copy_loop-outside dch sch left (i + 1) (store8 m (dch + i) (m (sch + i))) (dch + j),
    store8_self m (dch + i) (m (sch + i)),
  )
]

-- `memcpy` of fewer than 2 ^ 31 bytes, as many as its counter can count, copies `n` bytes and touches no byte outside the destination. Overlap is allowed when
-- the source starts at or above the destination.
pub memcpy_lem :
    (m : Ram) (dest src n : ℕ)
    → n < 2 ^ 31
    → (dest ≤ src) ⊎ (src + n ≤ dest)
    → ((j : ℕ) → j < n → memcpy m dest src n (dest + j) ≡ m (src + j) % 256)
      × ((x : ℕ) → (x < dest) ⊎ (dest + n ≤ x) → memcpy m dest src n x ≡ m x)
unfolding memcpy
memcpy_lem m dest src n small ok = (
  λ j q. copy_loop-inside dest src n 0 m (omega arith) j (omega arith) (omega arith),
  λ x h. copy_loop-outside dest src n 0 m x (omega arith),
)
