-- ===== src/Drivers/Pit/Laws.antt =====
-- The timer's rate, and how long a sleep lasts.
use kess_os.Base.{
  ℕ, zero, suc, ◌+◌, ◌*◌, ◌/◌, ◌%◌, ◌^◌, ◌≤◌, ◌<◌, ◌≡◌, ◌==◌, ltb, refl, arith, dec_lt, ◌∙◌,
}
use kess_os.Base.{bit_and, bit_and_mask, some, List, [], ◌∷◌, true, false, u16}
use native.Mathlib.Nat.{div-lt_iff_lt-mul}
use kess_os.Arch.Io.{Io, Trace, Device, out8}
use kess_os.Drivers.Pit.{
  divisor_of, send_divisor, set_pit_phase, Timer, irq0_handler, interrupts, wait_loop, pit_sleep,
}

quotient : (hz : ℕ) → 19 ≤ hz → 1193180 / hz < 2 ^ 16
quotient hz h = (div-lt_iff_lt-mul (omega arith)).1 (omega arith)

-- From 19 Hz on, `set_pit_phase` sends the command byte and then a divisor of 16 bits, low byte
-- first, which is the whole quotient 1193180 / hz.
pub set_pit_phase-sends :
    (hz : ℕ) (dev : Device) (t : Trace)
    → 19 ≤ hz
    → (io : Io (Unit {0})) × (set_pit_phase hz ≡ some io)
      × (lo : ℕ) × (hi : ℕ) × ((io dev t).1 ≡ out8 0x40 hi ∷ out8 0x40 lo ∷ out8 0x43 0x36 ∷ t)
      × (lo + 256 * hi ≡ 1193180 / hz)
unfolding set_pit_phase divisor_of send_divisor
set_pit_phase-sends hz dev t h =
    let nonzero : (hz == 0) ≡ false = ground arith in
    let d = u16 (1193180 / hz) in
    (
      send_divisor d,
      rw (nonzero, set_pit_phase) refl,
      bit_and d 0xFF % 256,
      d / 256 % 256,
      refl,
      omega (arith, bit_and_mask 8 d, quotient hz h),
    )

abbrev pub total : List ℕ → ℕ
total [] = 0
total (n ∷ ns) = n + total ns

irq0_handler-ticks :
    (s : Timer) (dev : Device) (t : Trace)
    → s.ticks + 1 < 2 ^ 64
    → (irq0_handler s dev t).0.ticks ≡ s.ticks + 1
unfolding irq0_handler
irq0_handler-ticks s dev t h = omega arith

interrupts-ticks :
    (n : ℕ) (s : Timer) (dev : Device) (t : Trace)
    → s.ticks + n < 2 ^ 64
    → (interrupts n s dev t).0.ticks ≡ s.ticks + n
unfolding interrupts
interrupts-ticks zero s dev t h = omega arith
interrupts-ticks (suc n) s dev t h =
    let s1 = irq0_handler s dev t in
    interrupts-ticks n s1.0 dev s1.1 (omega (arith, irq0_handler-ticks s dev t (omega arith)))
    ∙ omega (arith, irq0_handler-ticks s dev t (omega arith))

wait_loop-ends :
    (eticks : ℕ) (polls : List ℕ) (s : Timer) (dev : Device) (t : Trace)
    → s.ticks + total polls < 2 ^ 64
    → eticks ≤ s.ticks + total polls
    → (s' : Timer) × ((wait_loop eticks polls s dev t).0 ≡ some s')
      × (eticks ≤ s'.ticks)
      × (s'.ticks ≤ s.ticks + total polls)
unfolding wait_loop
wait_loop-ends eticks [] s dev t small h =
    let over : ltb s.ticks eticks ≡ false = ground arith in
    rw over (s, refl, omega arith, omega arith)
wait_loop-ends eticks (n ∷ polls) s dev t small h = elim (dec_lt s.ticks eticks) [
  | yes l ↦
      let go : ltb s.ticks eticks ≡ true = ground arith in
      let s1 = interrupts n s dev t in
      let count = interrupts-ticks n s dev t (omega arith) in
      let (s', e, over, soon) =
        wait_loop-ends eticks polls s1.0 dev s1.1 (omega (arith, count)) (omega (arith, count)) in
      rw go (s', e, over, omega (arith, count, soon))
  | no l ↦
      let over : ltb s.ticks eticks ≡ false = ground arith in
      rw over (s, refl, omega arith, omega arith)
]

-- `pit_sleep` returns as soon as enough timer interrupts come while it polls, and not before
-- that many ticks have passed. It counts no more ticks than interrupts came. The tick counter must
-- not wrap meanwhile.
pub pit_sleep-waits :
    (ticks : ℕ) (polls : List ℕ) (s : Timer) (dev : Device) (t : Trace)
    → s.ticks + total polls < 2 ^ 64
    → ticks ≤ total polls
    → (s' : Timer) × ((pit_sleep ticks polls s dev t).0 ≡ some s')
      × (s.ticks + ticks ≤ s'.ticks)
      × (s'.ticks ≤ s.ticks + total polls)
unfolding pit_sleep
pit_sleep-waits ticks polls s dev t small enough =
    let same : (s.ticks + ticks) % 2 ^ 64 ≡ s.ticks + ticks = omega arith in
    rw same (wait_loop-ends (s.ticks + ticks) polls s dev t small (omega arith))
