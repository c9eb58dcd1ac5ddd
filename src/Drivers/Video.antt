-- ===== src/Drivers/Video.antt =====
-- kernel/src/drivers/video/FrameBuffer.h and impl/FrameBuffer.c. A pixel is a store of 4 bytes to
-- memory. Each loop recurs on the rounds that are left; an `unsigned int` wraps at 2 ^ 32, and a
-- bound that has wrapped below its start gives no round at all. Strings are lists of bytes.
pub mod Fill
pub mod Screen
pub mod Square
pub mod Glyph
pub mod PutChar
pub mod Kwrite
pub mod Append
pub mod Agree
pub mod Kept
pub mod Below
pub mod Overrun
pub mod Line
pub mod Sample
mod Tests
use kess_os.Base.{ℕ, zero, suc, ◌+◌, ◌-◌, ◌*◌, ◌/◌, ◌^◌, ◌==◌, ltb, leb, bit_and, if◌then◌else◌}
use kess_os.Base.{u32, u64, ◌>>>◌, List, [], ◌∷◌}
use kess_os.Ram.{Ram, store32}

pub record Framebuffer : Type 0 where
  pub base_addr : ℕ
  pub buffer_size : ℕ
  pub width : ℕ
  pub height : ℕ
  pub ppsl : ℕ

pub record Psf1Header : Type 0 where
  pub magic0 : ℕ
  pub magic1 : ℕ
  pub mode : ℕ
  pub chsize : ℕ

pub record Psf1Font : Type 0 where
  pub header : Psf1Header
  pub glyph_buffer : ℕ

pub record Canvas : Type 0 where
  pub x : ℕ
  pub y : ℕ
  pub prev_x : ℕ
  pub lfb : Framebuffer
  pub font : Psf1Font

-- `glyphBuffer + (chr * chsize)`; a `char` from 128 on is negative.
abbrev pub glyph_addr : Psf1Font → (chr : ℕ) → ℕ
glyph_addr font chr =
    if ltb chr 128
    then font.glyph_buffer + chr * font.header.chsize
    else u64 (font.glyph_buffer + 2 ^ 64 - (256 - chr) * font.header.chsize)

-- One row of a glyph: `x - xOff` is `col`.
unfoldable pub glyph_row : Framebuffer → (color font_ptr x_off y : ℕ) → (left col : ℕ) → Ram → Ram
glyph_row fb color font_ptr x_off y zero col m = m
glyph_row fb color font_ptr x_off y (suc left) col m =
    glyph_row fb color font_ptr x_off y left (col + 1) (
      if bit_and (m font_ptr) (0x80 >>> col) == 0
      then m
      else store32 m (fb.base_addr + 4 * (x_off + col + y * fb.ppsl)) color)

-- The rows of a glyph: `y - yOff` is `row`.
unfoldable pub glyph_rows :
    Framebuffer → (color font_ptr x_off y_off : ℕ) → (left row : ℕ) → Ram → Ram
unfolding glyph_row
glyph_rows fb color font_ptr x_off y_off zero row m = m
glyph_rows fb color font_ptr x_off y_off (suc left) row m =
    glyph_rows fb color font_ptr x_off y_off left (row + 1)
      (glyph_row fb color (font_ptr + row) x_off (y_off + row) (u32 (x_off + 8) - x_off) 0 m)

unfoldable pub put_char : Framebuffer → Psf1Font → (color chr x_off y_off : ℕ) → Ram → Ram
put_char fb font color chr x_off y_off m =
    glyph_rows fb color (glyph_addr font chr) x_off y_off (u32 (y_off + 16) - y_off) 0 m

-- The index is an `int`.
unfoldable pub get_pixel_idx : Canvas → (x y : ℕ) → ℕ
get_pixel_idx canvas x y = u32 (x + y * canvas.lfb.ppsl)

unfoldable pub put_pix : Canvas → (x y color : ℕ) → Ram → Ram
unfolding get_pixel_idx
put_pix canvas x y color m =
    let idx = get_pixel_idx canvas x y in
    let base = canvas.lfb.base_addr in
    store32 m
      (if ltb idx (2 ^ 31) then base + 4 * idx else u64 (base + 2 ^ 64 - 4 * (2 ^ 32 - idx))) color

-- The inner loop of `draw_square` at `sy`.
unfoldable pub square_column : Canvas → (color sx : ℕ) → (left sy : ℕ) → Ram → Ram
square_column canvas color sx zero sy m = m
square_column canvas color sx (suc left) sy m =
    square_column canvas color sx left (sy + 1) (put_pix canvas sx sy color m)

-- The outer loop of `draw_square` at `sx`.
unfoldable pub square_columns : Canvas → (color y h : ℕ) → (left sx : ℕ) → Ram → Ram
square_columns canvas color y h zero sx m = m
square_columns canvas color y h (suc left) sx m =
    square_columns canvas color y h left (sx + 1)
      (square_column canvas color sx (u32 (y + h) - y) y m)

unfoldable pub draw_square : Canvas → (x y w h color : ℕ) → Ram → Ram
draw_square canvas x y w h color m = square_columns canvas color y h (u32 (x + w) - x) x m

-- One round of `kwrite`.
unfoldable pub write_char : (color chr : ℕ) → Canvas × Ram → Canvas × Ram
write_char color chr (canvas, m) =
    if chr == 0x0A
    then (record canvas { x = canvas.prev_x; y = u32 (canvas.y + 20) }, m)
    else let c =
        if leb canvas.lfb.height canvas.y
        then record canvas { prev_x = u32 (canvas.prev_x + 300); y = 10 }
        else canvas in
      (record c { x = u32 (c.x + 8) }, put_char c.lfb c.font color chr c.x c.y m)

unfoldable pub kwrite : (str : List ℕ) (color : ℕ) → Canvas × Ram → Canvas × Ram
kwrite [] color s = s
kwrite (chr ∷ str) color s = kwrite str color (write_char color chr s)

-- The inner loop of `clearScreen` at the pointer `ptr`.
unfoldable pub fill_row : (color : ℕ) → (left ptr : ℕ) → Ram → Ram
fill_row color zero ptr m = m
fill_row color (suc left) ptr m = fill_row color left (ptr + 4) (store32 m ptr color)

-- The outer loop of `clearScreen` at the scan line `vsl`.
unfoldable pub fill_rows : (color base bytes_per_scanline : ℕ) → (left vsl : ℕ) → Ram → Ram
fill_rows color base bytes_per_scanline zero vsl m = m
fill_rows color base bytes_per_scanline (suc left) vsl m =
    fill_rows color base bytes_per_scanline left (vsl + 1)
      (fill_row color (bytes_per_scanline / 4) (base + bytes_per_scanline * vsl) m)

unfoldable pub clear_screen : (color : ℕ) → Canvas × Ram → Canvas × Ram
clear_screen color (canvas, m) = (
  record canvas { prev_x = 0; x = 0; y = 55 },
  fill_rows color canvas.lfb.base_addr (u32 (canvas.lfb.ppsl * 4)) canvas.lfb.height 0 m,
)
