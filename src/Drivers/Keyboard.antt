-- ===== src/Drivers/Keyboard.antt =====
-- kernel/src/drivers/ps2/Keyboard.h and impl/Keyboard.c. `beyond` is the memory behind the table
-- of characters, which the handler reads for a scan code that the table does not hold.
pub mod Laws
mod Tests
use kess_os.Base.{
  ℕ, ◌+◌, ◌==◌, bit_and, bit_xor, if◌then◌else◌, List, [], ◌∷◌, get_elem?, none, some,
}
use kess_os.Arch.Io.{Io, pure, ◌>>=◌, ◌>>◌, inportb, outportb}
use kess_os.Arch.Pic.{pic1_data, pic_send_eoi}

pub record Keystroke : Type 0 where
  pub scancode : ℕ
  pub ch : ℕ
  pub pressed : ℕ

-- `SC_ASCII` with its terminating zero.
abbrev pub sc_ascii : List ℕ
sc_ascii =
    0x00 ∷ 0x1B ∷ b'1' ∷ b'2' ∷ b'3' ∷ b'4' ∷ b'5' ∷ b'6' ∷ b'7' ∷ b'8' ∷ b'9' ∷ b'0' ∷ b'-' ∷ b'='
    ∷ 0x08 ∷ 0x00 ∷ b'q' ∷ b'w' ∷ b'e' ∷ b'r' ∷ b't' ∷ b'y' ∷ b'u' ∷ b'i' ∷ b'o' ∷ b'p' ∷ 0x5B
    ∷ 0x5D ∷ 0x0D ∷ 0x1D ∷ b'a' ∷ b's' ∷ b'd' ∷ b'f' ∷ b'g' ∷ b'h' ∷ b'j' ∷ b'k' ∷ b'l' ∷ 0x3B
    ∷ 0x27 ∷ 0x60 ∷ 0x00 ∷ 0x5C ∷ b'z' ∷ b'x' ∷ b'c' ∷ b'v' ∷ b'b' ∷ b'n' ∷ b'm' ∷ 0x2C ∷ 0x2E
    ∷ b'/' ∷ 0x00 ∷ 0x00 ∷ 0x00 ∷ 0x20 ∷ 0x00 ∷ []

-- `SC_ASCII[scancode]`.
unfoldable pub char_of : (beyond : ℕ → ℕ) (scancode : ℕ) → ℕ
char_of beyond scancode = elim (get_elem? sc_ascii scancode) [ none ↦ beyond scancode | some c ↦ c ]

-- The port access of `ps2_keyboard_init`.
unfoldable pub ps2_keyboard_init : Io (Unit {0})
ps2_keyboard_init = do mask ← inportb pic1_data; outportb pic1_data (bit_xor mask 2)

unfoldable pub fetch_last_ps2_keystroke : Keystroke → Keystroke
fetch_last_ps2_keystroke s = s

-- The buffer after the scan code has been read.
unfoldable pub record_scancode : (beyond : ℕ → ℕ) (scancode : ℕ) → Keystroke → Keystroke
unfolding char_of
record_scancode beyond scancode s = record {
  scancode = scancode;
  ch = char_of beyond scancode;
  pressed = if bit_and scancode 0x80 == 0 then 1 else s.pressed;
}

unfoldable pub irq1_handler : (beyond : ℕ → ℕ) → Keystroke → Io Keystroke
unfolding record_scancode pic_send_eoi
irq1_handler beyond s = do
  scancode ← inportb 0x60
  pic_send_eoi 0x1
  pure (record_scancode beyond scancode s)
