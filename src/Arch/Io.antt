-- ===== src/Arch/Io.antt =====
-- kernel/src/arch/io/io.h and impl/io.c. The instructions `in` and `out` meet devices that are
-- not part of the program: a device is a function from the accesses so far, the latest first,
-- and a port to the value on the bus. A command returns its result and the longer trace.
use kess_os.Base.{ℕ, List, ◌∷◌, u8, u16, u32}

pub data Access : Type 0 where
  out8 out16 out32 : (port value : ℕ) → Access
  in8 in16 in32 : (port : ℕ) → Access

abbrev pub Trace : Type 0
Trace = List Access

abbrev pub Device : Type 0
Device = Trace → ℕ → ℕ

abbrev pub Io : Type 0 → Type 0
Io A = Device → Trace → A × Trace

abbrev pub pure : {A : Type 0} → A → Io A
pure a dev t = (a, t)

infixl 5 ◌>>=◌ ◌>>◌
abbrev pub ◌>>=◌ : {A B : Type 0} → Io A → (A → Io B) → Io B
◌>>=◌ m f dev t = let r = m dev t in f r.0 dev r.1

abbrev pub ◌>>◌ : {B : Type 0} → Io (Unit {0}) → Io B → Io B
m >> k = m >>= λ _. k

abbrev pub inportb : (port : ℕ) → Io ℕ
inportb port dev t = (u8 (dev t (u16 port)), in8 (u16 port) ∷ t)

abbrev pub outportb : (port data' : ℕ) → Io (Unit {0})
outportb port data' dev t = (tt, out8 (u16 port) (u8 data') ∷ t)

abbrev pub outportw : (port data' : ℕ) → Io (Unit {0})
outportw port data' dev t = (tt, out16 (u16 port) (u16 data') ∷ t)

-- The source reads the port and returns nothing: its body has no `return`.
abbrev pub inportw : (port : ℕ) → Io (Unit {0})
inportw port dev t = (tt, in16 (u16 port) ∷ t)

abbrev pub outportl : (port data' : ℕ) → Io (Unit {0})
outportl port data' dev t = (tt, out32 (u16 port) (u32 data') ∷ t)

abbrev pub inportl : (port : ℕ) → Io ℕ
inportl port dev t = (u32 (dev t (u16 port)), in32 (u16 port) ∷ t)

abbrev pub io_wait : Io (Unit {0})
io_wait = outportb 0x80 0x0
