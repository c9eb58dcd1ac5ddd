-- ===== src/Drivers/Video/Square.antt =====
-- Which pixels `draw_square` paints.
use kess_os.Base.{ℕ, zero, suc, ◌+◌, ◌-◌, ◌*◌, ◌%◌, ◌^◌, ◌≤◌, ◌<◌, ◌≡◌, ◌≢◌, ◌⊎◌, inl, inr, refl}
use kess_os.Base.{arith, ltb, true, ℕ_discrete, dec_lt, u32, ◌∙◌}
use kess_os.Ram.{Ram, load32, store32}
use kess_os.Ram.Laws.{load-store_ne, load32-store32}
use kess_os.Drivers.Video.{
  Framebuffer, Canvas, put_pix, get_pixel_idx, square_column, square_columns, draw_square,
}

-- Different places in the rows of `n` have different numbers.
row_lt : (n px py x y : ℕ) → px < n → x < n → py < y → py * n + px < y * n + x
row_lt n px py x y h k l = grind arith

row_le : (n y limit : ℕ) → y < limit → y * n + n ≤ limit * n
row_le n y limit l = grind arith

-- The address of a pixel.
abbrev pub pixel : Framebuffer → (px py : ℕ) → ℕ
pixel lfb px py = lfb.base_addr + 4 * (py * lfb.ppsl + px)

-- Two pixels do not overlap.
pub pixel-apart :
    (lfb : Framebuffer) (x y px py : ℕ)
    → x < lfb.ppsl
    → px < lfb.ppsl
    → (px ≢ x) ⊎ (py ≢ y)
    → (pixel lfb px py + 4 ≤ pixel lfb x y) ⊎ (pixel lfb x y + 4 ≤ pixel lfb px py)
pixel-apart lfb x y px py hx hp other = elim (dec_lt py y) [
  | yes l ↦ inl (omega (arith, row_lt lfb.ppsl px py x y hp hx l))
  | no ge ↦ elim (dec_lt y py) [
    | yes l ↦ inr (omega (arith, row_lt lfb.ppsl x y px py hx hp l))
    | no le ↦
        let same : py ≡ y = omega arith in
        rw same (elim (dec_lt px x) [ yes l ↦ inl (omega arith) | no ge ↦ inr (ground arith) ])
  ]
]

module _ (canvas : Canvas) (color : ℕ) (small : color < 2 ^ 32) where
  abbrev row : ℕ
  row = canvas.lfb.ppsl

  -- A write of one pixel, where the index is not negative as an `int`.
  put_pix-store :
      (x y : ℕ) (m : Ram)
      → y * row + x < 2 ^ 31
      → put_pix canvas x y color m ≡ store32 m (pixel canvas.lfb x y) color
  unfolding put_pix get_pixel_idx
  put_pix-store x y m h =
      let idx : (x + y * row) % 2 ^ 32 ≡ y * row + x = omega arith in
      let test : ltb (y * row + x) (2 ^ 31) ≡ true = ground arith in rw (idx, test) refl

  put_pix_self :
      (x y : ℕ) (m : Ram)
      → y * row + x < 2 ^ 31
      → load32 (put_pix canvas x y color m) (pixel canvas.lfb x y) ≡ color
  put_pix_self x y m h =
      rw (put_pix-store x y m h) (load32-store32 m (pixel canvas.lfb x y) color small)

  put_pix_other :
      (x y px py : ℕ) (m : Ram)
      → y * row + x < 2 ^ 31
      → x < row
      → px < row
      → (px ≢ x) ⊎ (py ≢ y)
      → load32 (put_pix canvas x y color m) (pixel canvas.lfb px py)
        ≡ load32 m (pixel canvas.lfb px py)
  put_pix_other x y px py m h hx hp other = rw (put_pix-store x y m h) (
      load-store_ne 4 4 m (pixel canvas.lfb x y) color (pixel canvas.lfb px py)
        (pixel-apart canvas.lfb x y px py hx hp other))

  -- What a column leaves of a pixel.
  column_out :
      (sx left sy px py : ℕ) (m : Ram)
      → sx < row
      → px < row
      → (sy + left) * row ≤ 2 ^ 31
      → (px ≢ sx) ⊎ ((py < sy) ⊎ (sy + left ≤ py))
      → load32 (square_column canvas color sx left sy m) (pixel canvas.lfb px py)
        ≡ load32 m (pixel canvas.lfb px py)
  unfolding square_column
  column_out sx zero sy px py m hx hp fits out = refl
  column_out sx (suc left) sy px py m hx hp fits out =
      let inside : sy * row + sx < 2 ^ 31 =
        omega (arith, row_le row sy (sy + suc left) (omega arith)) in
      let rest : (sy + 1 + left) * row ≤ 2 ^ 31 = grind arith in
      column_out sx left (sy + 1) px py (put_pix canvas sx sy color m) hx hp rest (later out)
      ∙ put_pix_other sx sy px py m inside hx hp (this out)
    where
      later :
          (px ≢ sx) ⊎ ((py < sy) ⊎ (sy + suc left ≤ py))
          → (px ≢ sx) ⊎ ((py < sy + 1) ⊎ (sy + 1 + left ≤ py))
      later (inl ne) = inl ne
      later (inr (inl l)) = inr (inl (omega arith))
      later (inr (inr l)) = inr (inr (omega arith))

      this : (px ≢ sx) ⊎ ((py < sy) ⊎ (sy + suc left ≤ py)) → (px ≢ sx) ⊎ (py ≢ sy)
      this (inl ne) = inl ne
      this (inr (inl l)) = inr (λ e. absurd (omega arith))
      this (inr (inr l)) = inr (λ e. absurd (omega arith))

  column_in :
      (sx left sy px py : ℕ) (m : Ram)
      → sx < row
      → (sy + left) * row ≤ 2 ^ 31
      → px ≡ sx
      → sy ≤ py
      → py < sy + left
      → load32 (square_column canvas color sx left sy m) (pixel canvas.lfb px py) ≡ color
  unfolding square_column
  column_in sx zero sy px py m hx fits e lo hi = absurd (omega arith)
  column_in sx (suc left) sy px py m hx fits e lo hi =
      let inside : sy * row + sx < 2 ^ 31 =
        omega (arith, row_le row sy (sy + suc left) (omega arith)) in
      let rest : (sy + 1 + left) * row ≤ 2 ^ 31 = grind arith in
      let m1 = put_pix canvas sx sy color m in
      elim (ℕ_discrete py sy) [
        | yes here ↦
            column_out sx left (sy + 1) px py m1 hx (omega arith) rest (inr (inl (omega arith)))
            ∙ rw (e, here) (put_pix_self sx sy m inside)
        | no later ↦ column_in sx left (sy + 1) px py m1 hx rest e (omega arith) (omega arith)
      ]

  module _ (y h : ℕ) (fits : (y + h) * row ≤ 2 ^ 31) (wraps : y + h < 2 ^ 32) where
    rounds : u32 (y + h) - y ≡ h
    rounds = omega arith

    columns_out :
        (left sx px py : ℕ) (m : Ram)
        → sx + left ≤ row
        → px < row
        → ((px < sx) ⊎ (sx + left ≤ px)) ⊎ ((py < y) ⊎ (y + h ≤ py))
        → load32 (square_columns canvas color y h left sx m) (pixel canvas.lfb px py)
          ≡ load32 m (pixel canvas.lfb px py)
    unfolding square_columns
    columns_out zero sx px py m hx hp out = refl
    columns_out (suc left) sx px py m hx hp out =
        columns_out left (sx + 1) px py _ (omega arith) hp (later out)
        ∙ rw rounds (column_out sx h y px py m (omega arith) hp fits (this out))
      where
        later :
            ((px < sx) ⊎ (sx + suc left ≤ px)) ⊎ ((py < y) ⊎ (y + h ≤ py))
            → ((px < sx + 1) ⊎ (sx + 1 + left ≤ px)) ⊎ ((py < y) ⊎ (y + h ≤ py))
        later (inl (inl l)) = inl (inl (omega arith))
        later (inl (inr l)) = inl (inr (omega arith))
        later (inr o) = inr o

        this :
            ((px < sx) ⊎ (sx + suc left ≤ px)) ⊎ ((py < y) ⊎ (y + h ≤ py))
            → (px ≢ sx) ⊎ ((py < y) ⊎ (y + h ≤ py))
        this (inl (inl l)) = inl (λ e. absurd (omega arith))
        this (inl (inr l)) = inl (λ e. absurd (omega arith))
        this (inr o) = inr o

    columns_in :
        (left sx px py : ℕ) (m : Ram)
        → sx + left ≤ row
        → sx ≤ px
        → px < sx + left
        → y ≤ py
        → py < y + h
        → load32 (square_columns canvas color y h left sx m) (pixel canvas.lfb px py) ≡ color
    unfolding square_columns
    columns_in zero sx px py m hx lo hi top bottom = absurd (omega arith)
    columns_in (suc left) sx px py m hx lo hi top bottom = elim (ℕ_discrete px sx) [
      | yes here ↦
          columns_out left (sx + 1) px py _ (omega arith) (omega arith) (inl (inl (omega arith)))
          ∙ rw rounds (column_in sx h y px py m (omega arith) fits here top bottom)
      | no later ↦
          columns_in left (sx + 1) px py _ (omega arith) (omega arith) (omega arith) top bottom
    ]

-- `draw_square` paints the pixels of its rectangle and no other pixel of the screen. The rectangle
-- must lie within a scan line, and its last row must have pixel numbers below 2 ^ 31.
pub draw_square-paints :
    (canvas : Canvas) (color : ℕ) (small : color < 2 ^ 32) (x y w h : ℕ) (m : Ram)
    → x + w ≤ canvas.lfb.ppsl
    → canvas.lfb.ppsl < 2 ^ 32
    → y + h < 2 ^ 32
    → (y + h) * canvas.lfb.ppsl ≤ 2 ^ 31
    → (px py : ℕ) → px < canvas.lfb.ppsl
    → let r = draw_square canvas x y w h color m in
      (x ≤ px → px < x + w → y ≤ py → py < y + h → load32 r (pixel canvas.lfb px py) ≡ color)
      × (((px < x) ⊎ (x + w ≤ px)) ⊎ ((py < y) ⊎ (y + h ≤ py))
          → load32 r (pixel canvas.lfb px py) ≡ load32 m (pixel canvas.lfb px py))
unfolding draw_square
draw_square-paints canvas color small x y w h m hx row_small wraps fits px py hp =
    let rounds : u32 (x + w) - x ≡ w = omega arith in
    rw rounds (
      (λ a b c d. columns_in canvas color small y h fits wraps w x px py m hx a b c d),
      columns_out canvas color small y h fits wraps w x px py m hx hp,
    )
