-- ===== src/Drivers/Pit.antt =====
-- kernel/src/drivers/timer/PIT.h and impl/PIT.c: the timer and its interrupt.
pub mod Laws
mod Tests
use kess_os.Base.{ℕ, zero, suc, ◌+◌, ◌/◌, ◌==◌, ltb, bit_and, if◌then◌else◌, u16, u64, ◌>>>◌}
use kess_os.Base.{Option, none, some, List, [], ◌∷◌}
use kess_os.Arch.Io.{Io, pure, ◌>>=◌, ◌>>◌, outportb}
use kess_os.Arch.Pic.{pic_send_eoi}
use kess_os.Proc.Thread.{Threads, thread_pit_schedule}

-- `none` is the processor's divide error.
unfoldable pub divisor_of : (hz : ℕ) → Option ℕ
divisor_of hz = if hz == 0 then none else some (u16 (1193180 / hz))

unfoldable pub send_divisor : (divisor : ℕ) → Io (Unit {0})
send_divisor divisor = do
  outportb 0x43 0x36
  outportb 0x40 (bit_and divisor 0xFF)
  outportb 0x40 (divisor >>> 8)

unfoldable pub set_pit_phase : (hz : ℕ) → Option (Io (Unit {0}))
unfolding divisor_of send_divisor
set_pit_phase hz = elim (divisor_of hz) [ none ↦ none | some divisor ↦ some (send_divisor divisor) ]

-- The timer's static and the thread table, which its interrupt serves.
pub record Timer : Type 0 where
  pub ticks : ℕ
  pub threads : Threads

unfoldable pub irq0_handler : Timer → Io Timer
unfolding pic_send_eoi thread_pit_schedule
irq0_handler s = do
  pic_send_eoi 0x0
  pure (record { ticks = u64 (s.ticks + 1); threads = thread_pit_schedule s.threads })

-- Interrupts that come between two tests of a loop.
unfoldable pub interrupts : ℕ → Timer → Io Timer
interrupts zero s = pure s
interrupts (suc n) s = irq0_handler s >>= interrupts n

-- `while (ticks < eticks);` where `polls` says how many interrupts come after each test; `none`
-- if the loop still runs when they are used up.
unfoldable pub wait_loop : (eticks : ℕ) (polls : List ℕ) → Timer → Io (Option Timer)
wait_loop eticks [] s = pure (if ltb s.ticks eticks then none else some s)
wait_loop eticks (n ∷ polls) s =
    let rest = interrupts n s >>= wait_loop eticks polls in
    if ltb s.ticks eticks then rest else pure (some s)

unfoldable pub pit_sleep : (ticks : ℕ) (polls : List ℕ) → Timer → Io (Option Timer)
pit_sleep ticks polls s = wait_loop (u64 (s.ticks + ticks)) polls s
