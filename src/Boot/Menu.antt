-- ===== src/Boot/Menu.antt =====
-- gnu-efi/bootloader/main.c: the menu, its drawing and its keys.
pub mod Laws
mod Tests
use kess_os.Base.{ℕ, zero, suc, ◌+◌, ◌-◌, ◌*◌, ◌/◌, ◌^◌, ◌==◌, ◌&&◌, not, Bool, if◌then◌else◌}
use kess_os.Base.{u32, u64, List, [], ◌∷◌, Option, none, some}
use kess_os.Ram.{Ram, store32}
use kess_os.Drivers.Video.{Framebuffer, Psf1Font, put_char, fill_rows}

abbrev pub background_color : ℕ
background_color = 0x0000FF

-- `clear_screen` of the boot loader, which keeps no cursor.
unfoldable pub boot_clear_screen : Framebuffer → (color : ℕ) → Ram → Ram
unfolding fill_rows
boot_clear_screen lfb color m =
    fill_rows (u32 color) lfb.base_addr (u32 (lfb.ppsl * 4)) lfb.height 0 m

-- `START`, computed as an `unsigned int`.
abbrev pub menu_start : Framebuffer → ℕ
menu_start lfb = u32 (lfb.height / 2 + 2 ^ 32 - 245)

-- `LIMIT`.
abbrev pub menu_limit : Framebuffer → ℕ
menu_limit lfb = u32 (menu_start lfb + 15)

-- `putChar` of the loader has the kernel's body.
abbrev pub boot_put_char : Framebuffer → Psf1Font → (color chr x_off y_off : ℕ) → Ram → Ram
boot_put_char = put_char

-- `while (TEXT[idx])` from the column `x` on.
unfoldable pub draw_text : Framebuffer → Psf1Font → (y : ℕ) → (text : List ℕ) → (x : ℕ) → Ram → Ram
draw_text lfb font y [] x m = m
draw_text lfb font y (chr ∷ text) x m =
    draw_text lfb font y text (u64 (x + 8)) (boot_put_char lfb font 0x000000 chr (u32 x) (u32 y) m)

-- One column of a bar, from the scan line `y` on.
unfoldable pub bar_column : Framebuffer → (color x : ℕ) → (left y : ℕ) → Ram → Ram
bar_column lfb color x zero y m = m
bar_column lfb color x (suc left) y m =
    bar_column lfb color x left (y + 1) (store32 m (lfb.base_addr + 4 * (x + y * lfb.ppsl)) color)

-- A bar over the whole width, from the column `x` on.
unfoldable pub bar_columns : Framebuffer → (color start limit : ℕ) → (left x : ℕ) → Ram → Ram
unfolding bar_column
bar_columns lfb color start limit zero x m = m
bar_columns lfb color start limit (suc left) x m =
    bar_columns lfb color start limit left (x + 1) (bar_column lfb color x (limit - start) start m)

-- What both screens do: the name of the loader, then each option's bar and text.
unfoldable pub draw_menu :
    Framebuffer
    → Psf1Font
    → (top_text boot_option reboot_option : List ℕ) → (boot_color reboot_color : ℕ) → Ram
    → Ram
unfolding draw_text bar_columns boot_clear_screen
draw_menu lfb font top_text boot_option reboot_option boot_color reboot_color m =
    let start = menu_start lfb in
    let m1 = boot_clear_screen lfb background_color m in
    let m2 = draw_text lfb font 50 top_text (start + 100) m1 in
    let m3 = bar_columns lfb boot_color start (menu_limit lfb) lfb.width 0 m2 in
    let m4 = draw_text lfb font start boot_option (start + 350) m3 in
    let m5 = bar_columns lfb reboot_color (start + 50) (start + 50 + 15) lfb.width 0 m4 in
    draw_text lfb font (start + 50) reboot_option (start + 350) m5

-- "BOOT [X]" and "REBOOT []" on white and grey.
unfoldable pub menu_select_boot : Framebuffer → Psf1Font → (top_text : List ℕ) → Ram → Ram
unfolding draw_menu
menu_select_boot lfb font top_text m =
    draw_menu lfb font top_text (b'B' ∷ b'O' ∷ b'O' ∷ b'T' ∷ 0x20 ∷ 0x5B ∷ b'X' ∷ 0x5D ∷ [])
      (b'R' ∷ b'E' ∷ b'B' ∷ b'O' ∷ b'O' ∷ b'T' ∷ 0x20 ∷ 0x5B ∷ 0x5D ∷ []) 0xFFFFFF 0x808080 m

-- "BOOT []" and "REBOOT [X]" on grey and white.
unfoldable pub menu_select_reboot : Framebuffer → Psf1Font → (top_text : List ℕ) → Ram → Ram
unfolding draw_menu
menu_select_reboot lfb font top_text m =
    draw_menu lfb font top_text (b'B' ∷ b'O' ∷ b'O' ∷ b'T' ∷ 0x20 ∷ 0x5B ∷ 0x5D ∷ [])
      (b'R' ∷ b'E' ∷ b'B' ∷ b'O' ∷ b'O' ∷ b'T' ∷ 0x20 ∷ 0x5B ∷ b'X' ∷ 0x5D ∷ []) 0x808080 0xFFFFFF m

-- What the loop of the menu draws.
pub data MenuEvent : Type 0 where
  shows_boot shows_reboot : MenuEvent

-- The variables of the loop, with the events so far, the latest first. `menuEntry` is 1 or 0.
pub record Menu : Type 0 where
  pub menu_entry : ℕ
  pub looping : ℕ
  pub legacy_boot : ℕ
  pub events : List MenuEvent

-- The menu is drawn with `menu_select_boot` before the loop.
abbrev pub first_menu : Menu
first_menu = record { menu_entry = 1; looping = 1; legacy_boot = 0; events = shows_boot ∷ [] }

-- One round of the loop on a key; `none` where it writes the reset command to the keyboard
-- controller, which resets the machine.
unfoldable pub menu_round : (scan_code : ℕ) → Menu → Option Menu
menu_round scan_code s =
    if (scan_code == 2) && not (s.menu_entry == 0)
    then some (record s { menu_entry = 0; events = shows_reboot ∷ s.events })
    else if (scan_code == 1) && (s.menu_entry == 0)
    then some (record s { menu_entry = 1; events = shows_boot ∷ s.events })
    else if scan_code == 3
    then if s.menu_entry == 1
      then some (record s { looping = 0 })
      else if s.menu_entry == 0
      then none
      else some s
    else if (scan_code == 4) && not (s.menu_entry == 0)
    then some (record s { looping = 0; legacy_boot = 1 })
    else some s

-- How the loop ends, if it does not wait for a key.
pub data MenuResult : Type 0 where
  waiting resets : MenuResult
  leaves : Menu → MenuResult

-- The loop on the keys that the firmware returns.
unfoldable pub menu_loop : (keys : List ℕ) → Menu → MenuResult
menu_loop [] s = if s.looping == 0 then leaves s else waiting
menu_loop (k ∷ keys) s =
    let rest : MenuResult = elim (menu_round k s) [ none ↦ resets | some s' ↦ menu_loop keys s' ] in
    if s.looping == 0 then leaves s else rest
