-- ===== src/Drivers/Keyboard/Tests.antt =====
-- An instance of the theorem on the keyboard.
use kess_os.Base.{ℕ, ◌≤◌, ◌≡◌, ◌∷◌, [], u8}
use kess_os.Arch.Io.{Device, in8, out8}
use kess_os.Drivers.Keyboard.{Keystroke, irq1_handler}
use kess_os.Drivers.Keyboard.Laws.{irq1_handler-records}

abbrev idle : Keystroke
idle = record { scancode = 0; ch = 0; pressed = 0 }

abbrev question_mark : ℕ → ℕ
question_mark x = b'?'

-- The release of the key `a`.
abbrev release_a : Device
release_a t port = 0x9E

irq1_handler-records_example :
    let r = irq1_handler question_mark idle release_a [] in
    (r.1 ≡ out8 0x20 0x20 ∷ in8 0x60 ∷ [])
    × (r.0.scancode ≡ u8 (release_a [] 0x60))
    × (59 ≤ r.0.scancode → r.0.ch ≡ question_mark (r.0.scancode))
irq1_handler-records_example = irq1_handler-records question_mark idle release_a []
