-- ===== src/Drivers/Pit/Tests.antt =====
-- Instances of the timer's theorems.
use kess_os.Base.{ℕ, ◌+◌, ◌*◌, ◌/◌, ◌≤◌, ◌≡◌, ◌∷◌, [], some, arith}
use kess_os.Arch.Io.{Io, Device, out8}
use kess_os.Proc.Thread.{no_threads}
use kess_os.Drivers.Pit.{Timer, set_pit_phase, pit_sleep}
use kess_os.Drivers.Pit.Laws.{total, set_pit_phase-sends, pit_sleep-waits}

abbrev silent : Device
silent t port = 0

set_pit_phase-sends_example :
    (io : Io (Unit {0})) × (set_pit_phase 1000 ≡ some io)
    × (lo : ℕ) × (hi : ℕ) × ((io silent []).1 ≡ out8 0x40 hi ∷ out8 0x40 lo ∷ out8 0x43 0x36 ∷ [])
    × (lo + 256 * hi ≡ 1193180 / 1000)
set_pit_phase-sends_example = set_pit_phase-sends 1000 silent [] (omega arith)

abbrev timer : Timer
timer = record { ticks = 40; threads = no_threads }

-- One interrupt after the first test, none after the second, two after the third.
pit_sleep-waits_example :
    (s' : Timer) × ((pit_sleep 3 (1 ∷ 0 ∷ 2 ∷ []) timer silent []).0 ≡ some s')
    × (timer.ticks + 3 ≤ s'.ticks)
    × (s'.ticks ≤ timer.ticks + total (1 ∷ 0 ∷ 2 ∷ []))
pit_sleep-waits_example =
    pit_sleep-waits 3 (1 ∷ 0 ∷ 2 ∷ []) timer silent [] (omega arith) (omega arith)
