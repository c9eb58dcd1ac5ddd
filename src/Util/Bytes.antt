-- ===== src/Util/Bytes.antt =====
-- kernel/src/util/impl/mem.c: `memzero` and `memcpy`, byte by byte in ascending order.
-- The C counters are `int`; for the sizes at hand, below 2 ^ 31, they count as ℕ does.
pub mod Laws
mod Tests
use kess_os.Base.{ℕ, zero, suc, ◌+◌}
use kess_os.Ram.{Ram, store8}

-- The loop of `memzero` at index `i`, with `left` rounds to go.
unfoldable pub zero_loop : (dst left i : ℕ) → Ram → Ram
zero_loop dst zero i m = m
zero_loop dst (suc left) i m = zero_loop dst left (i + 1) (store8 m (dst + i) 0)

unfoldable pub memzero : Ram → (dest n : ℕ) → Ram
unfolding zero_loop
memzero m dest n = zero_loop dest n 0 m

-- The loop of `memcpy` at index `i`, with `left` rounds to go.
unfoldable pub copy_loop : (dch sch left i : ℕ) → Ram → Ram
copy_loop dch sch zero i m = m
copy_loop dch sch (suc left) i m = copy_loop dch sch left (i + 1) (store8 m (dch + i) (m (sch + i)))

unfoldable pub memcpy : Ram → (dest src n : ℕ) → Ram
unfolding copy_loop
memcpy m dest src n = copy_loop dest src n 0 m
