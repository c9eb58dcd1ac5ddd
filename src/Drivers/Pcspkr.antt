-- ===== src/Drivers/Pcspkr.antt =====
-- kernel/src/drivers/audio/pcspkr.h and impl/pcspkr.c. `CLI` and `STI` do not touch a port, and
-- `UNGLITCH_ARG` logs an empty string.
pub mod Laws
mod Tests
use kess_os.Base.{ℕ, ◌+◌, ◌/◌, ◌==◌, bit_and, bit_or, if◌then◌else◌, u8, ◌>>>◌, Option, none, some}
use kess_os.Arch.Io.{Io, pure, ◌>>=◌, ◌>>◌, inportb, outportb}

unfoldable pub play_divisor : (div' : ℕ) → Io (Unit {0})
play_divisor div' = do
  outportb 0x43 0xB6
  outportb 0x42 (bit_and div' 0xFF)
  outportb 0x42 (div' >>> 8)
  tmp ← inportb 0x61
  if tmp == bit_or tmp 3 then pure tt else outportb 0x61 (bit_or tmp 3)

-- `none` is the processor's divide error.
unfoldable pub pcspkr_play : (hz : ℕ) → Option (Io (Unit {0}))
unfolding play_divisor
pcspkr_play hz = if hz == 0 then none else some (play_divisor (1193180 / hz))

unfoldable pub pcspkr_shutup : Io (Unit {0})
pcspkr_shutup = do tmp ← inportb 0x61; outportb 0x61 (bit_and tmp 0xFC)
