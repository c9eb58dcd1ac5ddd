-- ===== src/Drivers/Video/Line.antt =====
-- A line of text and its line feed leave the rest of the screen alone.
use kess_os.Base.{ℕ, ◌+◌, ◌*◌, ◌-◌, ◌^◌, ◌≤◌, ◌<◌, ◌≡◌, ◌⊎◌, inl, inr, refl, arith, ◌∙◌, u32}
use kess_os.Base.{List, [], ◌∷◌, ◌++◌, length, ap, sym}
use kess_os.Ram.{Ram, load32}
use kess_os.Drivers.Video.{Framebuffer, Psf1Font, Canvas, glyph_addr, put_char, write_char, kwrite}
use kess_os.Drivers.Video.Square.{pixel}
use kess_os.Drivers.Video.PutChar.{rows_out}
use kess_os.Drivers.Video.Kwrite.{IsLine, HasRoom, write_char-place}
use kess_os.Drivers.Video.Append.{kwrite-append}

-- A pixel that is not in the cells of `n` characters at the cursor.
abbrev pub IsBeside : Canvas → (n px py : ℕ) → Type 0
IsBeside canvas n px py =
    ((py < canvas.y) ⊎ (canvas.y + 16 ≤ py)) ⊎ ((px < canvas.x) ⊎ (canvas.x + 8 * n ≤ px))

module _ (color : ℕ) (small : color < 2 ^ 32) (px py : ℕ) where
  put_char-keeps :
      (lfb : Framebuffer) (font : Psf1Font) (c x y : ℕ) (m : Ram)
      → x + 8 ≤ lfb.ppsl
      → lfb.ppsl < 2 ^ 32
      → y + 16 < 2 ^ 32
      → px < lfb.ppsl
      → ((py < y) ⊎ (y + 16 ≤ py)) ⊎ ((px < x) ⊎ (x + 8 ≤ px))
      → load32 (put_char lfb font color c x y m) (pixel lfb px py) ≡ load32 m (pixel lfb px py)
  unfolding put_char
  put_char-keeps lfb font c x y m fits narrow short hp out =
      let sixteen : u32 (y + 16) - y ≡ 16 = omega arith in
      rw sixteen (
        rows_out lfb color small (glyph_addr font c) x y fits narrow 16 0 px py m hp (elim out [
          | inl (inl l) ↦ inl (inl (omega arith))
          | inl (inr l) ↦ inl (inr (omega arith))
          | inr o ↦ inr o
        ]))

  line-keeps :
      (str : List ℕ) (canvas : Canvas) (m : Ram)
      → IsLine str
      → HasRoom canvas str
      → px < canvas.lfb.ppsl
      → IsBeside canvas (length str) px py
      → ((kwrite str color (canvas, m)).0 ≡ record canvas { x = canvas.x + 8 * length str })
        × (load32 (kwrite str color (canvas, m)).1 (pixel canvas.lfb px py)
            ≡ load32 m (pixel canvas.lfb px py))
  unfolding kwrite
  line-keeps [] canvas m plain fits hp out =
      let stays : canvas.x + 8 * 0 ≡ canvas.x = omega arith in (rw stays refl, refl)
  line-keeps (c ∷ str) canvas m plain fits hp out =
      let m1 = put_char canvas.lfb canvas.font color c canvas.x canvas.y m in
      let canvas1 = record canvas { x = canvas.x + 8 } in
      let room : HasRoom canvas1 str = record {
        across = omega (arith, fits.across);
        narrow = fits.narrow;
        down = fits.down;
        short = fits.short;
      } in
      let rest = line-keeps str canvas1 m1 plain.1 room hp (later out) in
      rw (kwrite, write_char-place color c canvas m str plain.0 fits)
        (
          rest.0 ∙ ap (λ x. record canvas { x = x }) (omega arith),
          rest.1
              ∙ put_char-keeps canvas.lfb canvas.font c canvas.x canvas.y m
                  (omega (arith, fits.across)) (omega (arith, fits.narrow))
                  (omega (arith, fits.down, fits.short)) hp (this out),
        )
    where
      later :
          IsBeside canvas (length (c ∷ str)) px py
          → IsBeside (record canvas { x = canvas.x + 8 }) (length str) px py
      later (inl o) = inl o
      later (inr (inl l)) = inr (inl (omega arith))
      later (inr (inr l)) = inr (inr (omega arith))

      this :
          IsBeside canvas (length (c ∷ str)) px py
          → ((py < canvas.y) ⊎ (canvas.y + 16 ≤ py)) ⊎ ((px < canvas.x) ⊎ (canvas.x + 8 ≤ px))
      this (inl o) = inl o
      this (inr (inl l)) = inr (inl l)
      this (inr (inr l)) = inr (inr (omega arith))

  -- With the line feed, the cursor goes to the left margin, 20 lines below.
  pub line_feed-keeps :
      (str : List ℕ) (canvas : Canvas) (m : Ram)
      → IsLine str
      → HasRoom canvas str
      → px < canvas.lfb.ppsl
      → IsBeside canvas (length str) px py
      → let r = kwrite (str ++ 0x0A ∷ []) color (canvas, m) in
        (r.0 ≡ record canvas { x = canvas.prev_x; y = u32 (canvas.y + 20) })
        × (load32 r.1 (pixel canvas.lfb px py) ≡ load32 m (pixel canvas.lfb px py))
  unfolding kwrite write_char
  line_feed-keeps str canvas m plain fits hp out =
      let (cursor, same) = line-keeps str canvas m plain fits hp out in
      rw (sym (kwrite-append str (0x0A ∷ []) color (canvas, m))) (rw cursor refl, same)
