-- ===== src/Ram.antt =====
-- Memory as C sees it: a byte at each address, and little-endian words of several bytes.
-- A pointer is the address it holds. The kernel's loads and stores of `uint32_t` and `uint64_t`
-- are `load` and `store` of 4 and of 8 bytes.
pub mod Laws
use kess_os.Base.{ℕ, zero, suc, ◌+◌, ◌*◌, ◌/◌, ◌==◌, if◌then◌else◌, u8}

abbrev pub Ram : Type 0
Ram = ℕ → ℕ

unfoldable pub store8 : Ram → ℕ → ℕ → Ram
store8 m a v x = if a == x then u8 v else m x

unfoldable pub load : ℕ → Ram → ℕ → ℕ
load zero m a = 0
load (suc n) m a = m a + 256 * load n m (a + 1)

unfoldable pub store : ℕ → Ram → ℕ → ℕ → Ram
store zero m a v = m
store (suc n) m a v = store n (store8 m a v) (a + 1) (v / 256)

abbrev pub load32 : Ram → ℕ → ℕ
load32 = load 4

abbrev pub store32 : Ram → ℕ → ℕ → Ram
store32 = store 4

abbrev pub load64 : Ram → ℕ → ℕ
load64 = load 8

abbrev pub store64 : Ram → ℕ → ℕ → Ram
store64 = store 8
