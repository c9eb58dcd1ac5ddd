-- ===== src/Drivers/Video/Agree.antt =====
-- Text drawn on two memories that agree outside an area.
use kess_os.Base.{ℕ, zero, suc, ◌+◌, ◌-◌, ◌/◌, ◌<◌, ◌≡◌, refl, arith, List, [], ◌∷◌, ◌∙◌}
use kess_os.Base.{◌==◌, leb, bit_and, ◌>>>◌, if◌then◌else◌, Bool-cases, inl, inr, u32}
use kess_os.Ram.{Ram, store8, store}
use kess_os.Util.Text.Reverse.{IsBytes, store8-IsBytes}
use kess_os.Drivers.Video.{
  Framebuffer, Psf1Font, Canvas, glyph_addr, glyph_row, glyph_rows, put_char, write_char, kwrite,
}

module _ (Off : ℕ → Type 0) where
  -- The memories hold the same bytes outside the area.
  pub record Agree (m r : Ram) : Type 0 where
    pub same : (x : ℕ) → Off x → m x ≡ r x
    pub bytes : IsBytes m

  store8-Agree : (m r : Ram) (a v : ℕ) → Agree m r → Agree (store8 m a v) (store8 r a v)
  store8-Agree m r a v h = record {
    same = λ x off. unfold store8 in ground (arith, h.same x off);
    bytes = store8-IsBytes m a v h.bytes;
  }

  store-Agree : (n : ℕ) (m r : Ram) (a v : ℕ) → Agree m r → Agree (store n m a v) (store n r a v)
  unfolding store
  store-Agree zero m r a v h = h
  store-Agree (suc n) m r a v h =
      store-Agree n (store8 m a v) (store8 r a v) (a + 1) (v / 256) (store8-Agree m r a v h)

  module _ (fb : Framebuffer) (color : ℕ) where
    row-Agree :
        (font_ptr x_off y left col : ℕ) (m r : Ram)
        → Off font_ptr
        → Agree m r
        → Agree
            (glyph_row fb color font_ptr x_off y left col m)
            (glyph_row fb color font_ptr x_off y left col r)
    unfolding glyph_row
    row-Agree font_ptr x_off y zero col m r off h = h
    row-Agree font_ptr x_off y (suc left) col m r off h =
        rw (h.same font_ptr off) (elim (Bool-cases (bit_and (r font_ptr) (0x80 >>> col) == 0)) [
          | inl clear ↦ rw clear (row-Agree font_ptr x_off y left (col + 1) m r off h)
          | inr set ↦
              rw set
                (row-Agree font_ptr x_off y left (col + 1) _ _ off (store-Agree 4 m r _ color h))
        ])

    rows-Agree :
        (font_ptr x_off y_off left row : ℕ) (m r : Ram)
        → ((j : ℕ) → j < row + left → Off (font_ptr + j))
        → Agree m r
        → Agree
            (glyph_rows fb color font_ptr x_off y_off left row m)
            (glyph_rows fb color font_ptr x_off y_off left row r)
    unfolding glyph_rows
    rows-Agree font_ptr x_off y_off zero row m r off h = h
    rows-Agree font_ptr x_off y_off (suc left) row m r off h =
        rows-Agree font_ptr x_off y_off left (row + 1) _ _ (λ j l. off j (omega arith))
          (row-Agree (font_ptr + row) x_off (y_off + row) (u32 (x_off + 8) - x_off) 0 m r
            (off row (omega arith)) h)

  -- The glyphs of the font are outside the area.
  abbrev pub AreGlyphsOff : Psf1Font → Type 0
  AreGlyphsOff font = (chr j : ℕ) → j < 16 → Off (glyph_addr font chr + j)

  put_char-Agree :
      (fb : Framebuffer) (font : Psf1Font) (color chr x y : ℕ) (m r : Ram)
      → AreGlyphsOff font
      → Agree m r
      → Agree (put_char fb font color chr x y m) (put_char fb font color chr x y r)
  unfolding put_char
  put_char-Agree fb font color chr x y m r off h =
      rows-Agree fb color (glyph_addr font chr) x y (u32 (y + 16) - y) 0 m r
        (λ j l. off chr j (omega arith)) h

  -- One character on both memories.
  record Written (color chr : ℕ) (canvas : Canvas) (m r : Ram) : Type 0 where
    canvas' : Canvas
    m' : Ram
    r' : Ram
    left : write_char color chr (canvas, m) ≡ (canvas', m')
    right : write_char color chr (canvas, r) ≡ (canvas', r')
    font : canvas'.font ≡ canvas.font
    agree : Agree m' r'

  write_char-Written :
      (color chr : ℕ) (canvas : Canvas) (m r : Ram)
      → AreGlyphsOff canvas.font
      → Agree m r
      → Written color chr canvas m r
  unfolding write_char
  write_char-Written color chr canvas m r off h = elim (Bool-cases (chr == 0x0A)) [
    | inl feed ↦ record {
      canvas' = record canvas { x = canvas.prev_x; y = u32 (canvas.y + 20) };
      m' = m;
      r' = r;
      left = rw (write_char, feed) refl;
      right = rw (write_char, feed) refl;
      font = refl;
      agree = h;
    }
    | inr drawn ↦
        let c =
          if leb canvas.lfb.height canvas.y
          then record canvas { prev_x = u32 (canvas.prev_x + 300); y = 10 }
          else canvas in
        let same : c.font ≡ canvas.font = ground arith in
        record {
          canvas' = record c { x = u32 (c.x + 8) };
          m' = put_char c.lfb c.font color chr c.x c.y m;
          r' = put_char c.lfb c.font color chr c.x c.y r;
          left = rw (write_char, drawn) refl;
          right = rw (write_char, drawn) refl;
          font = same;
          agree = put_char-Agree c.lfb c.font color chr c.x c.y m r (rw same off) h;
        }
  ]

  -- The same text on the same canvas: the cursor ends at the same place, and the memories agree.
  pub kwrite-Agree :
      (str : List ℕ) (color : ℕ) (canvas : Canvas) (m r : Ram)
      → AreGlyphsOff canvas.font
      → Agree m r
      → ((kwrite str color (canvas, m)).0 ≡ (kwrite str color (canvas, r)).0)
        × ((kwrite str color (canvas, m)).0.font ≡ canvas.font)
        × Agree (kwrite str color (canvas, m)).1 (kwrite str color (canvas, r)).1
  unfolding kwrite
  kwrite-Agree [] color canvas m r off h = (refl, refl, h)
  kwrite-Agree (c ∷ str) color canvas m r off h =
      let w = write_char-Written color c canvas m r off h in
      let (cursor, font, agree) =
        kwrite-Agree str color w.canvas' w.m' w.r' (rw (w.font) off) w.agree in
      rw (kwrite, w.left, w.right) (cursor, font ∙ w.font, agree)
