-- ===== src/Drivers/Video/Screen.antt =====
-- Drawing stays on the screen.
use kess_os.Base.{ℕ, zero, suc, ◌+◌, ◌-◌, ◌*◌, ◌^◌, ◌≤◌, ◌<◌, ◌≡◌, ◌⊎◌, inl, inr, refl, arith, ◌∙◌}
use kess_os.Base.{u32, Bool-cases, bit_and, ◌==◌, ◌>>>◌}
use kess_os.Ram.{Ram, store32}
use kess_os.Ram.Laws.{store-outside}
use kess_os.Drivers.Video.{Framebuffer, Psf1Font, glyph_addr, glyph_row, glyph_rows, put_char}

-- An address outside the frame buffer.
abbrev pub OffScreen : Framebuffer → ℕ → Type 0
OffScreen lfb a = (a < lfb.base_addr) ⊎ (lfb.base_addr + 4 * (lfb.height * lfb.ppsl) ≤ a)

module _ (lfb : Framebuffer) (a : ℕ) (off : OffScreen lfb a) where
  -- A pixel of the screen does not reach `a`.
  pub pixel-outside :
      (i color : ℕ) (m : Ram)
      → i < lfb.height * lfb.ppsl
      → store32 m (lfb.base_addr + 4 * i) color a ≡ m a
  pixel-outside i color m h = store-outside 4 m (lfb.base_addr + 4 * i) color a (apart off)
    where
      apart : OffScreen lfb a → (a < lfb.base_addr + 4 * i) ⊎ (lfb.base_addr + 4 * i + 4 ≤ a)
      apart (inl l) = inl (omega arith)
      apart (inr l) = inr (omega arith)

  row-outside :
      (color font_ptr x_off y left col : ℕ) (m : Ram)
      → x_off + col + left + y * lfb.ppsl ≤ lfb.height * lfb.ppsl
      → glyph_row lfb color font_ptr x_off y left col m a ≡ m a
  unfolding glyph_row
  row-outside color font_ptr x_off y zero col m h = refl
  row-outside color font_ptr x_off y (suc left) col m h =
      row-outside color font_ptr x_off y left (col + 1) _ (omega arith)
      ∙ elim (Bool-cases (bit_and (m font_ptr) (0x80 >>> col) == 0)) [
        | inl clear ↦ rw clear refl
        | inr set ↦ rw set (pixel-outside (x_off + col + y * lfb.ppsl) color m (omega arith))
      ]

  rows-outside :
      (color font_ptr x_off y_off left row : ℕ) (m : Ram)
      → x_off + 8 < 2 ^ 32
      → x_off + 8 + (y_off + row + left) * lfb.ppsl ≤ (lfb.height + 1) * lfb.ppsl
      → glyph_rows lfb color font_ptr x_off y_off left row m a ≡ m a
  unfolding glyph_rows
  rows-outside color font_ptr x_off y_off zero row m small h = refl
  rows-outside color font_ptr x_off y_off (suc left) row m small h =
      let eight : u32 (x_off + 8) - x_off ≡ 8 = omega arith in
      let fits : x_off + 0 + 8 + (y_off + row) * lfb.ppsl ≤ lfb.height * lfb.ppsl = grind arith in
      rows-outside color font_ptr x_off y_off left (row + 1) _ small (grind arith)
      ∙ rw eight (row-outside color (font_ptr + row) x_off (y_off + row) 8 0 m fits)

  pub put_char-outside :
      (font : Psf1Font) (color chr x y : ℕ) (m : Ram)
      → x + 8 < 2 ^ 32
      → y + 16 < 2 ^ 32
      → x + 8 + (y + 15) * lfb.ppsl ≤ lfb.height * lfb.ppsl
      → put_char lfb font color chr x y m a ≡ m a
  unfolding put_char
  put_char-outside font color chr x y m hx hy h =
      let rounds : u32 (y + 16) - y ≡ 16 = omega arith in
      rw rounds (rows-outside color (glyph_addr font chr) x y 16 0 m hx (grind arith))
