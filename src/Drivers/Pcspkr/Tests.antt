-- ===== src/Drivers/Pcspkr/Tests.antt =====
-- An instance of the theorem on a tone.
use kess_os.Base.{ℕ, ◌+◌, ◌*◌, ◌/◌, ◌≡◌, ◌∷◌, [], some, arith}
use kess_os.Arch.Io.{Io, Device, out8}
use kess_os.Drivers.Pcspkr.{pcspkr_play}
use kess_os.Drivers.Pcspkr.Laws.{GateOpened, pcspkr_play-opens}

abbrev closed_gate : Device
closed_gate t port = 0x30

pcspkr_play-opens_example :
    (io : Io (Unit {0})) × (pcspkr_play 440 ≡ some io)
    × (lo : ℕ) × (hi : ℕ) × (lo + 256 * hi ≡ 1193180 / 440)
    × GateOpened closed_gate
        (out8 0x42 hi ∷ out8 0x42 lo ∷ out8 0x43 0xB6 ∷ [])
        (io closed_gate []).1
pcspkr_play-opens_example = pcspkr_play-opens 440 closed_gate [] (omega arith)
