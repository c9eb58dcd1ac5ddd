-- ===== src/Drivers/Video/Tests.antt =====
-- Instances of the theorems on the screen.
use kess_os.Base.{List, [], ◌∷◌, length, ℕ, ◌+◌, ◌*◌, ◌<◌, ◌≤◌, ◌⊎◌, inl, ◌≡◌, arith}
use kess_os.Ram.{Ram, load32}
use kess_os.Drivers.Video.Sample.{screen}
use kess_os.Drivers.Video.{Canvas, clear_screen, write_char, kwrite}
use kess_os.Drivers.Video.Kwrite.{Shows, HasGlyphs, kwrite-Shows}
use kess_os.Drivers.Video.Overrun.{write_char-overruns}
use kess_os.Drivers.Video.Square.{pixel}
use kess_os.Drivers.Video.Fill.{clear_screen-paints}

abbrev small_screen : Canvas
small_screen = record {
  x = 17;
  y = 71;
  prev_x = 3;
  lfb = record { base_addr = 0x80000000; buffer_size = 32; width = 4; height = 2; ppsl = 4 };
  font = record {
    header = record { magic0 = 0x36; magic1 = 0x04; mode = 0; chsize = 16 };
    glyph_buffer = 0x5000;
  };
}

abbrev noise : Ram
noise x = 7

clear_screen-paints_example :
    let r = clear_screen 0xFF00FF (small_screen, noise) in
    ((px py : ℕ) → px < 4 → py < 2 → load32 r.1 (0x80000000 + 4 * (py * 4 + px)) ≡ 0xFF00FF)
    × ((x : ℕ) → (x < 0x80000000) ⊎ (0x80000000 + 4 * (2 * 4) ≤ x) → r.1 x ≡ noise x)
    × (r.0 ≡ record small_screen { x = 0; y = 55; prev_x = 0 })
clear_screen-paints_example =
    clear_screen-paints 0xFF00FF small_screen noise (omega arith) (omega arith)

abbrev console : Canvas
console = record screen { x = 80 }

abbrev greeting : List ℕ
greeting = b'H' ∷ b'i' ∷ []

greeting-HasGlyphs : HasGlyphs console.lfb console.font greeting
greeting-HasGlyphs = (λ j h. ground arith, ((λ j h. ground arith), tt))

kwrite-Shows_example :
    ((kwrite greeting 0x00FF00 (console, noise)).0
      ≡ record console { x = console.x + 8 * length greeting })
    × Shows console 0x00FF00 greeting noise (kwrite greeting 0x00FF00 (console, noise)).1
kwrite-Shows_example =
    kwrite-Shows 0x00FF00 (omega arith) greeting console noise
      ((λ e. absurd (omega arith)), ((λ e. absurd (omega arith)), tt)) greeting-HasGlyphs
      (record {
        across = omega arith;
        narrow = omega arith;
        down = omega arith;
        short = omega arith;
      })

-- The 36th line of a screen of 768 lines.
abbrev bottom : Canvas
bottom = record console { y = 755 }

write_char-overruns_example :
    let place = pixel bottom.lfb 85 768 in
    (0x80000000 + 4 * (768 * 1024) ≤ place)
    × (load32 (write_char 0xFF b'H' (bottom, noise)).1 place ≡ 0xFF)
write_char-overruns_example =
    write_char-overruns 0xFF (omega arith) b'H' bottom noise 5 13 (λ h. absurd (omega arith))
      (omega arith) (omega arith) (omega arith) (omega arith) (λ j h. inl (ground arith))
      (omega arith) (omega arith) (omega arith) (λ h. absurd (omega arith))
