-- ===== src/Drivers/Video/Kwrite.antt =====
-- A line of text on the screen.
use kess_os.Base.{
  ℕ, zero, suc, ◌+◌, ◌*◌, ◌-◌, ◌^◌, ◌≤◌, ◌<◌, ◌≡◌, ◌≢◌, ◌⊎◌, inl, inr, refl, arith, ◌∙◌, ap,
}
use kess_os.Base.{List, [], ◌∷◌, length, get_elem?, some, ◌==◌, leb, false, u32}
use native.Mathlib.Nat.{mul-le-mul_right}
use kess_os.Ram.{Ram, load32}
use kess_os.Drivers.Video.{Framebuffer, Psf1Font, Canvas, glyph_addr, put_char, write_char, kwrite}
use kess_os.Drivers.Video.Screen.{OffScreen, put_char-outside}
use kess_os.Drivers.Video.Square.{pixel}
use kess_os.Drivers.Video.Glyph.{dot}
use kess_os.Drivers.Video.PutChar.{put_char-draws}

-- No line feed among the characters.
abbrev pub IsLine : List ℕ → Type 0
IsLine [] = Unit
IsLine (c ∷ str) = (c ≢ 0x0A) × IsLine str

-- The glyph of each of the characters is outside the frame buffer.
abbrev pub HasGlyphs : Framebuffer → Psf1Font → List ℕ → Type 0
HasGlyphs lfb font [] = Unit
HasGlyphs lfb font (c ∷ str) =
    ((j : ℕ) → j < 16 → OffScreen lfb (glyph_addr font c + j)) × HasGlyphs lfb font str

-- The text has room on the screen at the cursor.
pub record HasRoom (canvas : Canvas) (str : List ℕ) : Type 0 where
  pub across : canvas.x + 8 * length str ≤ canvas.lfb.ppsl
  pub narrow : canvas.lfb.ppsl < 2 ^ 32 - 8
  pub down : canvas.y + 16 ≤ canvas.lfb.height
  pub short : canvas.lfb.height < 2 ^ 32

-- Memory after the text shows each character at its place, and elsewhere what it showed before.
pub record Shows (canvas : Canvas) (color : ℕ) (str : List ℕ) (m r : Ram) : Type 0 where
  pub glyphs :
      (i c k row : ℕ)
      → get_elem? str i ≡ some c
      → k < 8
      → row < 16
      → let place = pixel canvas.lfb (canvas.x + 8 * i + k) (canvas.y + row) in
        load32 r place ≡ dot color (m (glyph_addr canvas.font c + row)) k m place
  pub others :
      (px py : ℕ)
      → px < canvas.lfb.ppsl
      → ((py < canvas.y) ⊎ (canvas.y + 16 ≤ py))
        ⊎ ((px < canvas.x) ⊎ (canvas.x + 8 * length str ≤ px))
      → load32 r (pixel canvas.lfb px py) ≡ load32 m (pixel canvas.lfb px py)

-- A character that is no line feed, above the last line.
pub write_char-place :
    (color c : ℕ) (canvas : Canvas) (m : Ram) (str : List ℕ)
    → c ≢ 0x0A
    → HasRoom canvas (c ∷ str)
    → write_char color c (canvas, m) ≡ (
      record canvas { x = canvas.x + 8 },
      put_char canvas.lfb canvas.font color c canvas.x canvas.y m,
    )
unfolding write_char
write_char-place color c canvas m str plain fits =
    let no_feed : (c == 0x0A) ≡ false = ground arith in
    let above : leb canvas.lfb.height canvas.y ≡ false = ground (arith, fits.down) in
    let next : u32 (canvas.x + 8) ≡ canvas.x + 8 = omega (arith, fits.across, fits.narrow) in
    rw (no_feed, above, next) refl

HasGlyphs-off :
    (lfb : Framebuffer) (font : Psf1Font) (str : List ℕ) (i c : ℕ)
    → HasGlyphs lfb font str
    → get_elem? str i ≡ some c
    → (j : ℕ) → j < 16
    → OffScreen lfb (glyph_addr font c + j)
HasGlyphs-off lfb font [] i c off e j h = absurd (cc)
HasGlyphs-off lfb font (d ∷ str) zero c off e j h = let same : d ≡ c = cc in rw (← same) (off.0 j h)
HasGlyphs-off lfb font (d ∷ str) (suc i) c off e j h = HasGlyphs-off lfb font str i c off.1 e j h

get_elem?-length : (str : List ℕ) (i c : ℕ) → get_elem? str i ≡ some c → i < length str
get_elem?-length [] i c e = absurd (cc)
get_elem?-length (d ∷ str) zero c e = omega arith
get_elem?-length (d ∷ str) (suc i) c e = omega (arith, get_elem?-length str i c e)

dot-cong :
    (color b b' k : ℕ) (m m' : Ram) (place : ℕ)
    → b ≡ b'
    → load32 m place ≡ load32 m' place
    → dot color b k m place ≡ dot color b' k m' place
dot-cong color b b' k m m' place e e' = rw (e, e') refl

-- A character changes no byte outside the frame buffer.
put_char-off :
    (canvas : Canvas) (color c a : ℕ) (str : List ℕ) (m : Ram)
    → HasRoom canvas (c ∷ str)
    → OffScreen canvas.lfb a
    → put_char canvas.lfb canvas.font color c canvas.x canvas.y m a ≡ m a
put_char-off canvas color c a str m fits off =
    let rows : (canvas.y + 16) * canvas.lfb.ppsl ≤ canvas.lfb.height * canvas.lfb.ppsl =
      mul-le-mul_right canvas.lfb.ppsl fits.down in
    put_char-outside canvas.lfb a off canvas.font color c canvas.x canvas.y m
      (omega (arith, fits.across, fits.narrow)) (omega (arith, fits.down, fits.short))
      (omega (arith, rows, fits.across))

module _ (color : ℕ) (small : color < 2 ^ 32) (c : ℕ) (str : List ℕ) (canvas : Canvas) (m : Ram)
    (fits : HasRoom canvas (c ∷ str)) (drawn : HasGlyphs canvas.lfb canvas.font (c ∷ str)) where
  abbrev after : Ram
  after = put_char canvas.lfb canvas.font color c canvas.x canvas.y m

  -- The first character.
  first-draws :
      ((k row : ℕ)
        → k < 8
        → row < 16
        → load32 after (pixel canvas.lfb (canvas.x + k) (canvas.y + row))
          ≡ dot color
              (m (glyph_addr canvas.font c + row))
              k
              m
              (pixel canvas.lfb (canvas.x + k) (canvas.y + row)))
      × ((px py : ℕ)
          → px < canvas.lfb.ppsl
          → ((py < canvas.y) ⊎ (canvas.y + 16 ≤ py)) ⊎ ((px < canvas.x) ⊎ (canvas.x + 8 ≤ px))
          → load32 after (pixel canvas.lfb px py) ≡ load32 m (pixel canvas.lfb px py))
  first-draws =
      put_char-draws canvas.lfb canvas.font color small c canvas.x canvas.y m
        (omega (arith, fits.across)) (omega (arith, fits.narrow)) fits.down fits.short drawn.0

  -- The text after it is written on what it left.
  Shows-cons :
      (r : Ram)
      → Shows (record canvas { x = canvas.x + 8 }) color str after r
      → Shows canvas color (c ∷ str) m r
  Shows-cons r rest = record {
    glyphs = glyph;
    others = λ px py hp out. rest.others px py hp (right out) ∙ first-draws.1 px py hp (left out);
  }
    where
      right :
          {px py : ℕ}
          → ((py < canvas.y) ⊎ (canvas.y + 16 ≤ py))
            ⊎ ((px < canvas.x) ⊎ (canvas.x + 8 * length (c ∷ str) ≤ px))
          → ((py < canvas.y) ⊎ (canvas.y + 16 ≤ py))
            ⊎ ((px < canvas.x + 8) ⊎ (canvas.x + 8 + 8 * length str ≤ px))
      right (inl o) = inl o
      right (inr (inl l)) = inr (inl (omega arith))
      right (inr (inr l)) = inr (inr (omega arith))

      left :
          {px py : ℕ}
          → ((py < canvas.y) ⊎ (canvas.y + 16 ≤ py))
            ⊎ ((px < canvas.x) ⊎ (canvas.x + 8 * length (c ∷ str) ≤ px))
          → ((py < canvas.y) ⊎ (canvas.y + 16 ≤ py)) ⊎ ((px < canvas.x) ⊎ (canvas.x + 8 ≤ px))
      left (inl o) = inl o
      left (inr (inl l)) = inr (inl l)
      left (inr (inr l)) = inr (inr (omega arith))

      glyph :
          (i d k row : ℕ)
          → get_elem? (c ∷ str) i ≡ some d
          → k < 8
          → row < 16
          → let place = pixel canvas.lfb (canvas.x + 8 * i + k) (canvas.y + row) in
            load32 r place ≡ dot color (m (glyph_addr canvas.font d + row)) k m place
      glyph zero d k row e hk hr =
          let same : c ≡ d = cc in
          let here : canvas.x + 8 * 0 + k ≡ canvas.x + k = omega arith in
          rw (here, ← same)
            (rest.others (canvas.x + k) (canvas.y + row) (omega (arith, fits.across))
                (inr (inl (omega arith)))
              ∙ first-draws.0 k row hk hr)
      glyph (suc i) d k row e hk hr =
          let there : canvas.x + 8 * suc i + k ≡ canvas.x + 8 + 8 * i + k = omega arith in
          let place = pixel canvas.lfb (canvas.x + 8 + 8 * i + k) (canvas.y + row) in
          let inside : i < length str = get_elem?-length str i d e in
          rw there (
            rest.glyphs i d k row e hk hr
            ∙ dot-cong color _ _ k after m place
                (put_char-off canvas color c (glyph_addr canvas.font d + row) str m fits
                  (HasGlyphs-off canvas.lfb canvas.font str i d drawn.1 e row hr))
                (first-draws.1 (canvas.x + 8 + 8 * i + k) (canvas.y + row)
                  (omega (arith, fits.across)) (inr (inr (omega arith)))))

-- A line of text: `kwrite` draws the glyph of each character in the cell 8 pixels after the one
-- before, in the colour, leaves every other pixel of the screen as it was, and moves the cursor
-- behind the text. The line must have room on the screen at the cursor, have no line feed, and the
-- bytes of its glyphs must be outside the frame buffer.
pub kwrite-Shows :
    (color : ℕ) (small : color < 2 ^ 32) (str : List ℕ) (canvas : Canvas) (m : Ram)
    → IsLine str
    → HasGlyphs canvas.lfb canvas.font str
    → HasRoom canvas str
    → ((kwrite str color (canvas, m)).0 ≡ record canvas { x = canvas.x + 8 * length str })
      × Shows canvas color str m (kwrite str color (canvas, m)).1
unfolding kwrite
kwrite-Shows color small [] canvas m plain drawn fits =
    let stays : canvas.x + 8 * 0 ≡ canvas.x = omega arith in
    (
      rw stays refl,
      record { glyphs = λ i c k row e hk hr. absurd (cc); others = λ px py hp out. refl },
    )
kwrite-Shows color small (c ∷ str) canvas m plain drawn fits =
    let m1 = put_char canvas.lfb canvas.font color c canvas.x canvas.y m in
    let canvas1 = record canvas { x = canvas.x + 8 } in
    let room : HasRoom canvas1 str = record {
      across = omega (arith, fits.across);
      narrow = fits.narrow;
      down = fits.down;
      short = fits.short;
    } in
    let rest = kwrite-Shows color small str canvas1 m1 plain.1 drawn.1 room in
    rw (kwrite, write_char-place color c canvas m str plain.0 fits)
      (
        rest.0 ∙ ap (λ x. record canvas { x = x }) (omega arith),
        Shows-cons color small c str canvas m fits drawn _ rest.1,
      )
