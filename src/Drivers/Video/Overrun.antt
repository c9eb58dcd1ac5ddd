-- ===== src/Drivers/Video/Overrun.antt =====
-- A line of text that starts on the screen and ends below it.
use kess_os.Base.{ℕ, zero, suc, ◌+◌, ◌*◌, ◌-◌, ◌^◌, ◌≤◌, ◌<◌, ◌≡◌, ◌≢◌, ◌⊎◌, refl, arith, ◌∙◌, sym}
use kess_os.Base.{◌==◌, leb, false, u32, bit_and, ◌>>>◌}
use native.Mathlib.Nat.{mul-le-mul_right}
use kess_os.Ram.{Ram, load32}
use kess_os.Drivers.Video.{
  Framebuffer, Psf1Font, Canvas, glyph_addr, glyph_row, glyph_rows, put_char, write_char,
}
use kess_os.Drivers.Video.Square.{pixel}
use kess_os.Drivers.Video.PutChar.{put_char-draws}

-- A frame buffer that is `n` lines higher.
abbrev taller : ℕ → Framebuffer → Framebuffer
taller n lfb = record lfb { height = lfb.height + n }

module _ (lfb : Framebuffer) (n color : ℕ) where
  row-taller :
      (font_ptr x_off y left col : ℕ) (m : Ram)
      → glyph_row (taller n lfb) color font_ptr x_off y left col m
        ≡ glyph_row lfb color font_ptr x_off y left col m
  unfolding glyph_row
  row-taller font_ptr x_off y zero col m = refl
  row-taller font_ptr x_off y (suc left) col m = row-taller font_ptr x_off y left (col + 1) _

  rows-taller :
      (font_ptr x_off y_off left row : ℕ) (m : Ram)
      → glyph_rows (taller n lfb) color font_ptr x_off y_off left row m
        ≡ glyph_rows lfb color font_ptr x_off y_off left row m
  unfolding glyph_rows
  rows-taller font_ptr x_off y_off zero row m = refl
  rows-taller font_ptr x_off y_off (suc left) row m =
      rows-taller font_ptr x_off y_off left (row + 1) _
      ∙ rw (row-taller (font_ptr + row) x_off (y_off + row) (u32 (x_off + 8) - x_off) 0 m) refl

  -- `putChar` does not look at the height.
  put_char-taller :
      (font : Psf1Font) (chr x y : ℕ) (m : Ram)
      → put_char (taller n lfb) font color chr x y m ≡ put_char lfb font color chr x y m
  unfolding put_char
  put_char-taller font chr x y m = rows-taller (glyph_addr font chr) x y (u32 (y + 16) - y) 0 m

-- `kwrite` draws a character whose first line is on the screen, even where its later lines are not:
-- each set bit of the glyph in such a line gets the colour at an address behind the end of the
-- frame buffer. The character is no line feed, its cell is within the scan line, and its glyph lies
-- neither in the frame buffer nor in the 16 lines behind it.
pub write_char-overruns :
    (color : ℕ) (small : color < 2 ^ 32) (chr : ℕ) (canvas : Canvas) (m : Ram) (k row : ℕ)
    → chr ≢ 0x0A
    → canvas.y < canvas.lfb.height
    → canvas.x + 8 ≤ canvas.lfb.ppsl
    → canvas.lfb.ppsl < 2 ^ 32
    → canvas.lfb.height + 16 < 2 ^ 32
    → ((j : ℕ)
        → j < 16
        → (glyph_addr canvas.font chr + j < canvas.lfb.base_addr)
          ⊎ (canvas.lfb.base_addr + 4 * ((canvas.lfb.height + 16) * canvas.lfb.ppsl)
              ≤ glyph_addr canvas.font chr + j))
    → k < 8
    → row < 16
    → canvas.lfb.height ≤ canvas.y + row
    → bit_and (m (glyph_addr canvas.font chr + row)) (0x80 >>> k) ≢ 0
    → let place = pixel canvas.lfb (canvas.x + k) (canvas.y + row) in
      (canvas.lfb.base_addr + 4 * (canvas.lfb.height * canvas.lfb.ppsl) ≤ place)
      × (load32 (write_char color chr (canvas, m)).1 place ≡ color)
unfolding write_char
write_char-overruns color small chr canvas m k row plain above fits narrow short off hk hr below
      set =
    let no_feed : (chr == 0x0A) ≡ false = ground arith in
    let on : leb canvas.lfb.height canvas.y ≡ false = ground arith in
    let lit : (bit_and (m (glyph_addr canvas.font chr + row)) (0x80 >>> k) == 0) ≡ false =
      ground arith in
    let drawn =
      put_char-draws (taller 16 canvas.lfb) canvas.font color small chr canvas.x canvas.y m fits
        narrow (omega arith) short off in
    let place = pixel canvas.lfb (canvas.x + k) (canvas.y + row) in
    (
      omega (arith, mul-le-mul_right canvas.lfb.ppsl below),
      rw (no_feed, on)
          (rw (sym (put_char-taller canvas.lfb 16 color canvas.font chr canvas.x canvas.y m))
            (drawn.0 k row hk hr ∙ rw lit refl)),
    )
