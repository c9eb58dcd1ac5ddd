-- ===== src/Drivers/Video/Below.antt =====
-- Text leaves memory below the frame buffer alone.
use kess_os.Base.{ℕ, zero, suc, ◌+◌, ◌-◌, ◌<◌, ◌≡◌, refl, arith, ◌∙◌, List, [], ◌∷◌}
use kess_os.Base.{u32, Bool-cases, bit_and, ◌==◌, ◌>>>◌, leb, inl, inr}
use kess_os.Ram.{Ram}
use kess_os.Ram.Laws.{store-outside}
use kess_os.Drivers.Video.{
  Framebuffer, Psf1Font, Canvas, glyph_addr, glyph_row, glyph_rows, put_char, write_char, kwrite,
}
use kess_os.Drivers.Video.Kept.{write_char-lfb}

module _ (lfb : Framebuffer) (color a : ℕ) (below : a < lfb.base_addr) where
  row-below :
      (font_ptr x_off y left col : ℕ) (m : Ram)
      → glyph_row lfb color font_ptr x_off y left col m a ≡ m a
  unfolding glyph_row
  row-below font_ptr x_off y zero col m = refl
  row-below font_ptr x_off y (suc left) col m =
      row-below font_ptr x_off y left (col + 1) _
      ∙ elim (Bool-cases (bit_and (m font_ptr) (0x80 >>> col) == 0)) [
        | inl clear ↦ rw clear refl
        | inr set ↦ rw set (store-outside 4 m _ color a (inl (omega arith)))
      ]

  rows-below :
      (font_ptr x_off y_off left row : ℕ) (m : Ram)
      → glyph_rows lfb color font_ptr x_off y_off left row m a ≡ m a
  unfolding glyph_rows
  rows-below font_ptr x_off y_off zero row m = refl
  rows-below font_ptr x_off y_off (suc left) row m =
      rows-below font_ptr x_off y_off left (row + 1) _
      ∙ row-below (font_ptr + row) x_off (y_off + row) (u32 (x_off + 8) - x_off) 0 m

  put_char-below :
      (font : Psf1Font) (chr x y : ℕ) (m : Ram) → put_char lfb font color chr x y m a ≡ m a
  unfolding put_char
  put_char-below font chr x y m = rows-below (glyph_addr font chr) x y (u32 (y + 16) - y) 0 m

write_char-below :
    (color chr a : ℕ) (s : Canvas × Ram)
    → a < s.0.lfb.base_addr
    → (write_char color chr s).1 a ≡ s.1 a
unfolding write_char
write_char-below color chr a (canvas, m) below = elim (Bool-cases (chr == 0x0A)) [
  | inl feed ↦ rw feed refl
  | inr drawn ↦ elim (Bool-cases (leb canvas.lfb.height canvas.y)) [
    | inl over ↦ rw (drawn, over) (put_char-below canvas.lfb color a below canvas.font chr _ _ m)
    | inr on ↦ rw (drawn, on) (put_char-below canvas.lfb color a below canvas.font chr _ _ m)
  ]
]

pub kwrite-below :
    (str : List ℕ) (color a : ℕ) (s : Canvas × Ram)
    → a < s.0.lfb.base_addr
    → (kwrite str color s).1 a ≡ s.1 a
unfolding kwrite
kwrite-below [] color a s below = refl
kwrite-below (c ∷ str) color a s below =
    kwrite-below str color a (write_char color c s) (rw (write_char-lfb color c s) below)
    ∙ write_char-below color c a s below
