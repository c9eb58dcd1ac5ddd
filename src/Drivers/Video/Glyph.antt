-- ===== src/Drivers/Video/Glyph.antt =====
-- Which pixels a row of a glyph paints.
use kess_os.Base.{ℕ, zero, suc, ◌+◌, ◌*◌, ◌^◌, ◌≤◌, ◌<◌, ◌≡◌, ◌≢◌, ◌⊎◌, inl, inr, refl, arith, ◌∙◌}
use kess_os.Base.{if◌then◌else◌, Bool-cases, bit_and, ◌==◌, ◌>>>◌, ℕ_discrete}
use kess_os.Ram.{Ram, load32, store32}
use kess_os.Ram.Laws.{load-store_ne, load32-store32}
use kess_os.Drivers.Video.{Framebuffer, glyph_row}
use kess_os.Drivers.Video.Screen.{OffScreen, pixel-outside}
use kess_os.Drivers.Video.Square.{pixel, pixel-apart}

-- A bit of the glyph paints its pixel, or leaves it.
abbrev pub dot : (color bits col : ℕ) → Ram → (address : ℕ) → ℕ
dot color bits col m address = if bit_and bits (0x80 >>> col) == 0 then load32 m address else color

module _ (lfb : Framebuffer) (color : ℕ) (small : color < 2 ^ 32) where
  -- The memory after the pixel of one bit.
  abbrev painted : (bits col x y : ℕ) → Ram → Ram
  painted bits col x y m =
      if bit_and bits (0x80 >>> col) == 0 then m else store32 m (pixel lfb x y) color

  painted_self :
      (bits col x y : ℕ) (m : Ram)
      → load32 (painted bits col x y m) (pixel lfb x y) ≡ dot color bits col m (pixel lfb x y)
  painted_self bits col x y m = elim (Bool-cases (bit_and bits (0x80 >>> col) == 0)) [
    | inl clear ↦ rw clear refl
    | inr set ↦ rw set (load32-store32 m (pixel lfb x y) color small)
  ]

  painted_other :
      (bits col x y px py : ℕ) (m : Ram)
      → x < lfb.ppsl
      → px < lfb.ppsl
      → (px ≢ x) ⊎ (py ≢ y)
      → load32 (painted bits col x y m) (pixel lfb px py) ≡ load32 m (pixel lfb px py)
  painted_other bits col x y px py m hx hp other =
      elim (Bool-cases (bit_and bits (0x80 >>> col) == 0)) [
        | inl clear ↦ rw clear refl
        | inr set ↦ rw set (
            load-store_ne 4 4 m (pixel lfb x y) color (pixel lfb px py)
              (pixel-apart lfb x y px py hx hp other))
      ]

  painted_off :
      (bits col x y a : ℕ) (m : Ram)
      → x < lfb.ppsl
      → y < lfb.height
      → OffScreen lfb a
      → painted bits col x y m a ≡ m a
  painted_off bits col x y a m hx hy off = elim (Bool-cases (bit_and bits (0x80 >>> col) == 0)) [
    | inl clear ↦ rw clear refl
    | inr set ↦ rw set (pixel-outside lfb a off (y * lfb.ppsl + x) color m (grind arith))
  ]

  -- One round of the loop over a row.
  row-step :
      (font_ptr x_off y left col : ℕ) (m : Ram)
      → glyph_row lfb color font_ptr x_off y (suc left) col m
        ≡ glyph_row lfb color font_ptr x_off y left
            (col + 1)
            (painted (m font_ptr) col (x_off + col) y m)
  unfolding glyph_row
  row-step font_ptr x_off y left col m =
      let same : x_off + col + y * lfb.ppsl ≡ y * lfb.ppsl + (x_off + col) = omega arith in
      rw same refl

  pub row_off :
      (font_ptr x_off y left col a : ℕ) (m : Ram)
      → x_off + col + left ≤ lfb.ppsl
      → y < lfb.height
      → OffScreen lfb a
      → glyph_row lfb color font_ptr x_off y left col m a ≡ m a
  unfolding glyph_row
  row_off font_ptr x_off y zero col a m hx hy off = refl
  row_off font_ptr x_off y (suc left) col a m hx hy off =
      rw (row-step font_ptr x_off y left col m) (
        row_off font_ptr x_off y left (col + 1) a _ (omega arith) hy off
        ∙ painted_off (m font_ptr) col (x_off + col) y a m (omega arith) hy off)

  pub row_out :
      (font_ptr x_off y left col px py : ℕ) (m : Ram)
      → x_off + col + left ≤ lfb.ppsl
      → px < lfb.ppsl
      → (py ≢ y) ⊎ ((px < x_off + col) ⊎ (x_off + col + left ≤ px))
      → load32 (glyph_row lfb color font_ptr x_off y left col m) (pixel lfb px py)
        ≡ load32 m (pixel lfb px py)
  unfolding glyph_row
  row_out font_ptr x_off y zero col px py m hx hp out = refl
  row_out font_ptr x_off y (suc left) col px py m hx hp out =
      rw (row-step font_ptr x_off y left col m) (
        row_out font_ptr x_off y left (col + 1) px py _ (omega arith) hp (later out)
        ∙ painted_other (m font_ptr) col (x_off + col) y px py m (omega arith) hp (this out))
    where
      later :
          (py ≢ y) ⊎ ((px < x_off + col) ⊎ (x_off + col + suc left ≤ px))
          → (py ≢ y) ⊎ ((px < x_off + (col + 1)) ⊎ (x_off + (col + 1) + left ≤ px))
      later (inl ne) = inl ne
      later (inr (inl l)) = inr (inl (omega arith))
      later (inr (inr l)) = inr (inr (omega arith))

      this :
          (py ≢ y) ⊎ ((px < x_off + col) ⊎ (x_off + col + suc left ≤ px))
          → (px ≢ x_off + col) ⊎ (py ≢ y)
      this (inl ne) = inr ne
      this (inr (inl l)) = inl (λ e. absurd (omega arith))
      this (inr (inr l)) = inl (λ e. absurd (omega arith))

  pub row_in :
      (font_ptr x_off y left col k bits : ℕ) (m : Ram)
      → x_off + col + left ≤ lfb.ppsl
      → y < lfb.height
      → OffScreen lfb font_ptr
      → m font_ptr ≡ bits
      → col ≤ k
      → k < col + left
      → load32 (glyph_row lfb color font_ptr x_off y left col m) (pixel lfb (x_off + k) y)
        ≡ dot color bits k m (pixel lfb (x_off + k) y)
  row_in font_ptr x_off y zero col k bits m hx hy off e lo hi = absurd (omega arith)
  row_in font_ptr x_off y (suc left) col k bits m hx hy off e lo hi =
      let next = painted (m font_ptr) col (x_off + col) y m in
      rw (row-step font_ptr x_off y left col m) (elim (ℕ_discrete k col) [
        | yes here ↦
            row_out font_ptr x_off y left (col + 1) (x_off + k) y next (omega arith) (omega arith)
              (inr (inl (omega arith)))
            ∙ rw (here, e) (painted_self bits col (x_off + col) y m)
        | no later ↦
            row_in font_ptr x_off y left (col + 1) k bits next (omega arith) hy off
              (painted_off (m font_ptr) col (x_off + col) y font_ptr m (omega arith) hy off ∙ e)
              (omega arith) (omega arith)
            ∙ rw
                (painted_other (m font_ptr) col (x_off + col) y (x_off + k) y m (omega arith)
                  (omega arith) (inl (λ e. absurd (omega arith))))
                refl
      ])
