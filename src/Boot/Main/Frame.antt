-- ===== src/Boot/Main/Frame.antt =====
-- The boot loader draws on the screen and nowhere else.
use kess_os.Base.{ℕ, zero, suc, ◌+◌, ◌-◌, ◌*◌, ◌/◌, ◌^◌, ◌≤◌, ◌<◌, ◌≡◌, refl, arith, ◌∙◌}
use kess_os.Base.{u32, u64, List, [], ◌∷◌, length, codes}
use native.Mathlib.Nat.{mul-le-mul_right}
use kess_os.Ram.{Ram}
use kess_os.Drivers.Video.{Framebuffer, Psf1Font}
use kess_os.Drivers.Video.Screen.{OffScreen, pixel-outside, put_char-outside}
use kess_os.Drivers.Video.Fill.{fill_rows-outside, screen_bounds}
use kess_os.Boot.Menu.{
  boot_clear_screen, menu_start, menu_limit, draw_text, bar_column, bar_columns, draw_menu,
  menu_select_boot, menu_select_reboot, shows_boot, shows_reboot, MenuEvent, background_color,
}
use kess_os.Boot.Main.{top_text, draw_events}

-- A screen that is large enough for the menu.
pub record IsScreen (lfb : Framebuffer) : Type 0 where
  pub tall : 490 ≤ lfb.height
  pub wide : 640 ≤ lfb.ppsl
  pub not_too_tall : lfb.height < 2 ^ 31
  pub not_too_wide : lfb.ppsl < 2 ^ 30
  pub visible : lfb.width ≤ lfb.ppsl

module _ (lfb : Framebuffer) (a : ℕ) (off : OffScreen lfb a) where
  text-outside :
      (font : Psf1Font) (y : ℕ) (text : List ℕ) (x : ℕ) (m : Ram)
      → x + 8 * length text < 2 ^ 32
      → y + 16 < 2 ^ 32
      → x + 8 * length text + (y + 15) * lfb.ppsl ≤ lfb.height * lfb.ppsl
      → draw_text lfb font y text x m a ≡ m a
  unfolding draw_text
  text-outside font y [] x m hx hy h = refl
  text-outside font y (c ∷ text) x m hx hy h =
      let next : u64 (x + 8) ≡ x + 8 = omega arith in
      let same_x : u32 x ≡ x = omega arith in
      let same_y : u32 y ≡ y = omega arith in
      rw (next, same_x, same_y)
        (text-outside font y text (x + 8) _ (omega arith) hy (omega arith)
          ∙ put_char-outside lfb a off font 0 c x y m (omega arith) hy (omega arith))

  column-outside :
      (color x left y : ℕ) (m : Ram)
      → x < lfb.ppsl
      → y + left ≤ lfb.height
      → bar_column lfb color x left y m a ≡ m a
  unfolding bar_column
  column-outside color x zero y m hx h = refl
  column-outside color x (suc left) y m hx h =
      column-outside color x left (y + 1) _ hx (omega arith)
      ∙ pixel-outside lfb a off (x + y * lfb.ppsl) color m (grind arith)

  bar-outside :
      (color start limit left x : ℕ) (m : Ram)
      → x + left ≤ lfb.ppsl
      → start ≤ limit
      → limit ≤ lfb.height
      → bar_columns lfb color start limit left x m a ≡ m a
  unfolding bar_columns
  bar-outside color start limit zero x m hx order h = refl
  bar-outside color start limit (suc left) x m hx order h =
      bar-outside color start limit left (x + 1) _ (omega arith) order h
      ∙ column-outside color x (limit - start) start m (omega arith) (omega arith)

-- Text that starts in the upper half has room, even where it runs over the end of a scan line.
text_room :
    (width half height y reach : ℕ)
    → 640 ≤ width
    → reach ≤ half + 700
    → y + half + 115 ≤ height
    → reach + (y + 15) * width ≤ height * width
text_room width half height y reach wide short high =
    let columns : reach ≤ (half + 100) * width = grind arith in
    let rows : (y + half + 115) * width ≤ height * width = mul-le-mul_right width high in
    grind (arith, columns, rows)

module _ (lfb : Framebuffer) (a : ℕ) (off : OffScreen lfb a) (v : IsScreen lfb) where
  pub clear-outside : (color : ℕ) (m : Ram) → boot_clear_screen lfb color m a ≡ m a
  unfolding boot_clear_screen
  clear-outside color m =
      let row_eq : u32 (lfb.ppsl * 4) ≡ lfb.ppsl * 4 = omega (arith, v.not_too_wide) in
      rw row_eq (
        fill_rows-outside (u32 color) lfb.base_addr (lfb.ppsl * 4) lfb.height 0 m a
          (screen_bounds lfb.base_addr lfb.ppsl lfb.height a off))

  start_value : menu_start lfb ≡ lfb.height / 2 - 245
  start_value = omega (arith, v.tall, v.not_too_tall)

  limit_value : menu_limit lfb ≡ menu_start lfb + 15
  limit_value = omega (arith, start_value, v.not_too_tall)

  menu-outside :
      (font : Psf1Font) (top boot_option reboot_option : List ℕ) (boot_color reboot_color : ℕ)
      (m : Ram)
      → length top ≤ 104
      → length boot_option ≤ 10
      → length reboot_option ≤ 10
      → draw_menu lfb font top boot_option reboot_option boot_color reboot_color m a ≡ m a
  unfolding draw_menu
  menu-outside font top boot_option reboot_option boot_color reboot_color m short boot_short
        reboot_short =
      let start = menu_start lfb in
      let half = lfb.height / 2 in
      let room : (y reach : ℕ)
          → reach ≤ half + 700
          → y + half + 115 ≤ lfb.height
          → reach + (y + 15) * lfb.ppsl ≤ lfb.height * lfb.ppsl =
        λ y reach. text_room lfb.ppsl half lfb.height y reach v.wide in
      text-outside lfb a off font (start + 50) reboot_option (start + 350) _
        (omega (arith, start_value, limit_value, v.tall, v.not_too_tall))
        (omega (arith, start_value, limit_value, v.tall, v.not_too_tall))
        (room (start + 50) _ (omega (arith, start_value, limit_value, v.tall, v.not_too_tall))
          (omega (arith, start_value, limit_value, v.tall, v.not_too_tall)))
      ∙ bar-outside lfb a off reboot_color (start + 50) (start + 50 + 15) lfb.width 0 _
          (omega (arith, v.visible)) (omega arith)
          (omega (arith, start_value, limit_value, v.tall, v.not_too_tall))
      ∙ text-outside lfb a off font start boot_option (start + 350) _
          (omega (arith, start_value, limit_value, v.tall, v.not_too_tall))
          (omega (arith, start_value, limit_value, v.tall, v.not_too_tall))
          (room start _ (omega (arith, start_value, limit_value, v.tall, v.not_too_tall))
            (omega (arith, start_value, limit_value, v.tall, v.not_too_tall)))
      ∙ bar-outside lfb a off boot_color start (menu_limit lfb) lfb.width 0 _
          (omega (arith, v.visible))
          (omega (arith, start_value, limit_value, v.tall, v.not_too_tall))
          (omega (arith, start_value, limit_value, v.tall, v.not_too_tall))
      ∙ text-outside lfb a off font 50 top (start + 100) _
          (omega (arith, start_value, limit_value, v.tall, v.not_too_tall)) (omega arith)
          (room 50 _ (omega (arith, start_value, limit_value, v.tall, v.not_too_tall))
            (omega (arith, start_value, limit_value, v.tall, v.not_too_tall)))
      ∙ clear-outside background_color m

  pub draw_events-outside :
      (font : Psf1Font) (events : List MenuEvent) (m : Ram) → draw_events lfb font events m a ≡ m a
  unfolding draw_events menu_select_boot menu_select_reboot
  draw_events-outside font [] m = refl
  draw_events-outside font (shows_boot ∷ events) m =
      menu-outside font top_text (codes "BOOT [X]") (codes "REBOOT []") 0xFFFFFF 0x808080 _
        (omega arith) (omega arith) (omega arith)
      ∙ draw_events-outside font events m
  draw_events-outside font (shows_reboot ∷ events) m =
      menu-outside font top_text (codes "BOOT []") (codes "REBOOT [X]") 0x808080 0xFFFFFF _
        (omega arith) (omega arith) (omega arith)
      ∙ draw_events-outside font events m
