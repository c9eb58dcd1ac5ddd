-- ===== src/Drivers/Video/PutChar.antt =====
-- Which pixels `putChar` paints.
use kess_os.Base.{ℕ, zero, suc, ◌+◌, ◌-◌, ◌^◌, ◌≤◌, ◌<◌, ◌≡◌, ◌≢◌, ◌⊎◌, inl, inr, refl, arith, ◌∙◌}
use kess_os.Base.{u32, ℕ_discrete}
use kess_os.Ram.{Ram, load32}
use kess_os.Drivers.Video.{Framebuffer, Psf1Font, glyph_addr, glyph_row, glyph_rows, put_char}
use kess_os.Drivers.Video.Screen.{OffScreen}
use kess_os.Drivers.Video.Square.{pixel}
use kess_os.Drivers.Video.Glyph.{dot, row_off, row_out, row_in}

module _ (lfb : Framebuffer) (color : ℕ) (small : color < 2 ^ 32) where
  module _ (font_ptr x_off y_off : ℕ) (fits : x_off + 8 ≤ lfb.ppsl)
      (narrow : lfb.ppsl < 2 ^ 32) where
    eight : u32 (x_off + 8) - x_off ≡ 8
    eight = omega arith

    pub rows_out :
        (left row px py : ℕ) (m : Ram)
        → px < lfb.ppsl
        → ((py < y_off + row) ⊎ (y_off + row + left ≤ py)) ⊎ ((px < x_off) ⊎ (x_off + 8 ≤ px))
        → load32 (glyph_rows lfb color font_ptr x_off y_off left row m) (pixel lfb px py)
          ≡ load32 m (pixel lfb px py)
    unfolding glyph_rows
    rows_out zero row px py m hp out = refl
    rows_out (suc left) row px py m hp out = rw eight (
        rows_out left (row + 1) px py _ hp (later out)
        ∙ row_out lfb color small (font_ptr + row) x_off (y_off + row) 8 0 px py m (omega arith) hp
            (this out))
      where
        later :
            ((py < y_off + row) ⊎ (y_off + row + suc left ≤ py)) ⊎ ((px < x_off) ⊎ (x_off + 8 ≤ px))
            → ((py < y_off + (row + 1)) ⊎ (y_off + (row + 1) + left ≤ py))
              ⊎ ((px < x_off) ⊎ (x_off + 8 ≤ px))
        later (inl (inl l)) = inl (inl (omega arith))
        later (inl (inr l)) = inl (inr (omega arith))
        later (inr o) = inr o

        this :
            ((py < y_off + row) ⊎ (y_off + row + suc left ≤ py)) ⊎ ((px < x_off) ⊎ (x_off + 8 ≤ px))
            → (py ≢ y_off + row) ⊎ ((px < x_off + 0) ⊎ (x_off + 0 + 8 ≤ px))
        this (inl (inl l)) = inl (λ e. absurd (omega arith))
        this (inl (inr l)) = inl (λ e. absurd (omega arith))
        this (inr (inl l)) = inr (inl (omega arith))
        this (inr (inr l)) = inr (inr (omega arith))

    rows_in :
        (bits : ℕ → ℕ) (left row k r : ℕ) (m : Ram)
        → y_off + row + left ≤ lfb.height
        → ((j : ℕ) → row ≤ j → j < row + left → OffScreen lfb (font_ptr + j))
        → ((j : ℕ) → row ≤ j → j < row + left → m (font_ptr + j) ≡ bits j)
        → k < 8
        → row ≤ r
        → r < row + left
        → load32
            (glyph_rows lfb color font_ptr x_off y_off left row m)
            (pixel lfb (x_off + k) (y_off + r))
          ≡ dot color (bits r) k m (pixel lfb (x_off + k) (y_off + r))
    unfolding glyph_rows
    rows_in bits zero row k r m tall off font hk lo hi = absurd (omega arith)
    rows_in bits (suc left) row k r m tall off font hk lo hi =
        let next = glyph_row lfb color (font_ptr + row) x_off (y_off + row) 8 0 m in
        rw eight (elim (ℕ_discrete r row) [
          | yes here ↦
              rows_out left (row + 1) (x_off + k) (y_off + r) next (omega arith)
                (inl (inl (omega arith)))
              ∙ rw here (
                  row_in lfb color small (font_ptr + row) x_off (y_off + row) 8 0 k (bits row) m
                    (omega arith) (omega arith) (off row (omega arith) (omega arith))
                    (font row (omega arith) (omega arith)) (omega arith) (omega arith))
          | no later ↦
              rows_in bits left (row + 1) k r next (omega arith)
                (λ j a b. off j (omega arith) (omega arith))
                (λ j a b.
                  row_off lfb color small (font_ptr + row) x_off (y_off + row) 8 0 (font_ptr + j) m
                    (omega arith) (omega arith) (off j (omega arith) (omega arith))
                  ∙ font j (omega arith) (omega arith))
                hk (omega arith) (omega arith)
              ∙ rw
                  (row_out lfb color small (font_ptr + row) x_off (y_off + row) 8 0 (x_off + k)
                    (y_off + r) m (omega arith) (omega arith) (inl (λ e. absurd (omega arith))))
                  refl
        ])

-- `putChar` draws the glyph: of the 8 by 16 pixels at its place, each whose bit is set in the
-- font's bytes gets the colour, and each other pixel of the screen stays. The cell must lie on the
-- screen, and the bytes of the glyph outside the frame buffer.
pub put_char-draws :
    (lfb : Framebuffer) (font : Psf1Font) (color : ℕ) (small : color < 2 ^ 32) (chr x y : ℕ)
    (m : Ram)
    → x + 8 ≤ lfb.ppsl
    → lfb.ppsl < 2 ^ 32
    → y + 16 ≤ lfb.height
    → lfb.height < 2 ^ 32
    → ((j : ℕ) → j < 16 → OffScreen lfb (glyph_addr font chr + j))
    → let r = put_char lfb font color chr x y m in
      ((k row : ℕ)
        → k < 8
        → row < 16
        → load32 r (pixel lfb (x + k) (y + row))
          ≡ dot color (m (glyph_addr font chr + row)) k m (pixel lfb (x + k) (y + row)))
      × ((px py : ℕ)
          → px < lfb.ppsl
          → ((py < y) ⊎ (y + 16 ≤ py)) ⊎ ((px < x) ⊎ (x + 8 ≤ px))
          → load32 r (pixel lfb px py) ≡ load32 m (pixel lfb px py))
unfolding put_char
put_char-draws lfb font color small chr x y m fits narrow tall short off =
    let g = glyph_addr font chr in
    let sixteen : u32 (y + 16) - y ≡ 16 = omega arith in
    rw sixteen (
      (λ k row hk hr.
          rows_in lfb color small g x y fits narrow (λ j. m (g + j)) 16 0 k row m (omega arith)
            (λ j a b. off j (omega arith)) (λ j a b. refl) hk (omega arith) (omega arith)),
      (λ px py hp out. rows_out lfb color small g x y fits narrow 16 0 px py m hp (elim out [
        | inl (inl l) ↦ inl (inl (omega arith))
        | inl (inr l) ↦ inl (inr (omega arith))
        | inr o ↦ inr o
      ])),
    )
