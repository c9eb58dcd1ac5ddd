-- ===== src/Boot/Font.antt =====
-- gnu-efi/bootloader/main.c: `loadFont` and `strlen`. `read position size address` is what
-- `SetPosition` and `Read` of the font's file do to memory; `font_header` and `glyphs` are the
-- addresses that `AllocatePool` gives.
pub mod Laws
use kess_os.Base.{
  ℕ, zero, suc, ◌+◌, ◌*◌, ◌==◌, ◌||◌, Bool, if◌then◌else◌, bit_and, Option, none, some,
}
use kess_os.Ram.{Ram}
use kess_os.Drivers.Video.{Psf1Font}

abbrev pub psf1_magic0 : ℕ
psf1_magic0 = 0x00000036

abbrev pub psf1_magic1 : ℕ
psf1_magic1 = 0x00000004

-- The condition for "Font header invalid!".
unfoldable pub font_header_bad : Ram → (font_header : ℕ) → Bool
font_header_bad m font_header =
    bit_and (m font_header) psf1_magic0 == 0 || bit_and (m (font_header + 1)) psf1_magic1 == 0

unfoldable pub glyph_buffer_size : (mode chsize : ℕ) → ℕ
glyph_buffer_size mode chsize = if mode == 1 then chsize * 512 else chsize * 255

-- `present` says whether the file was opened; `none` is NULL.
unfoldable pub load_font :
    (read : (position size address : ℕ) → Ram → Ram)
    → (font_header glyphs : ℕ) → (present : Bool) → Ram
    → Option (Psf1Font × Ram)
load_font read font_header glyphs present m =
    let m1 = read 0 4 font_header m in
    let size = glyph_buffer_size (m1 (font_header + 2)) (m1 (font_header + 3)) in
    if present
    then if font_header_bad m1 font_header
      then none
      else some (
        record {
          header = record {
            magic0 = m1 font_header;
            magic1 = m1 (font_header + 1);
            mode = m1 (font_header + 2);
            chsize = m1 (font_header + 3);
          };
          glyph_buffer = glyphs;
        },
        read 4 size glyphs m1,
      )
    else none

-- `while (STR[len++]);`, and `len` as it is then.
unfoldable pub boot_strlen_loop : (fuel : ℕ) → Ram → (str len : ℕ) → Option ℕ
boot_strlen_loop zero m str len = none
boot_strlen_loop (suc fuel) m str len =
    let rest = boot_strlen_loop fuel m str (len + 1) in
    if m (str + len) == 0 then some (len + 1) else rest

unfoldable pub boot_strlen : (fuel : ℕ) → Ram → (str : ℕ) → Option ℕ
boot_strlen fuel m str = boot_strlen_loop fuel m str 0
