-- ===== src/Drivers/Keyboard/Laws.antt =====
-- What the handler records.
use kess_os.Base.{ℕ, ◌<◌, ◌≤◌, ◌≡◌, ◌^◌, ◌%◌, ◌/◌, bit_and, refl, arith, List, [], ◌∷◌, u8}
use kess_os.Base.{◌*◌, get_elem?-none, bit_and_mask, bit_and_shifted}
use kess_os.Arch.Io.{Trace, Device, in8, out8}
use kess_os.Drivers.Keyboard.{Keystroke, sc_ascii, char_of, record_scancode, irq1_handler}

bit7 : (x : ℕ) → bit_and x 0x80 ≡ x / 128 % 2 * 128
bit7 x = omega (arith, bit_and_shifted 7 x 1, bit_and_mask 1 (x / 2 ^ 7))

-- The scan codes of a run of interrupts, one after the other.
abbrev keys : (beyond : ℕ → ℕ) → List ℕ → Keystroke → Keystroke
keys beyond [] s = s
keys beyond (c ∷ cs) s = keys beyond cs (record_scancode beyond c s)

-- Once a key has gone down, `pressed` stays set whatever comes from the keyboard, the release of
-- that key included.
pressed_forever :
    (beyond : ℕ → ℕ) (code : ℕ) (codes : List ℕ) (s : Keystroke)
    → code < 0x80
    → (keys beyond (code ∷ codes) s).pressed ≡ 1
pressed_forever beyond code codes s h =
    stays codes _ (unfold record_scancode in ground (arith, bit7 code))
  where
    stays : (cs : List ℕ) (s : Keystroke) → s.pressed ≡ 1 → (keys beyond cs s).pressed ≡ 1
    stays [] s e = e
    stays (c ∷ cs) s e =
        stays cs (record_scancode beyond c s) (unfold record_scancode in ground arith)

char_of-beyond : (beyond : ℕ → ℕ) (code : ℕ) → 59 ≤ code → char_of beyond code ≡ beyond code
unfolding char_of
char_of-beyond beyond code h = rw (get_elem?-none sc_ascii code h)

-- The handler reads port 0x60 once, acknowledges the interrupt at the master only, and records the
-- scan code. For every code from 59 on, so for every release of a key, the character it records is
-- read from behind the table.
pub irq1_handler-records :
    (beyond : ℕ → ℕ) (s : Keystroke) (dev : Device) (t : Trace)
    → let r = irq1_handler beyond s dev t in
      (r.1 ≡ out8 0x20 0x20 ∷ in8 0x60 ∷ t)
      × (r.0.scancode ≡ u8 (dev t 0x60))
      × (59 ≤ r.0.scancode → r.0.ch ≡ beyond r.0.scancode)
unfolding irq1_handler
irq1_handler-records beyond s dev t = (refl, refl, λ h. char_of-beyond beyond (u8 (dev t 0x60)) h)
