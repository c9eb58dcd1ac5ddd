-- ===== src/Boot/Menu/Tests.antt =====
-- Runs and instances of the menu.
use kess_os.Base.{◌≡◌, ◌⊎◌, ◌∷◌, [], refl}
use kess_os.Boot.Menu.{Menu, menu_round, menu_loop, first_menu, resets, leaves}
use kess_os.Boot.Menu.Laws.{on_screen, NoRight, menu_loop-ends}

-- Down and right.
reboot_resets : menu_loop (2 ∷ 3 ∷ []) first_menu ≡ resets
unfolding menu_loop menu_round
reboot_resets = refl

-- Down, up, down, up, right.
menu_loop-ends_example :
    ((menu_loop (2 ∷ 1 ∷ 2 ∷ 1 ∷ 3 ∷ []) first_menu ≡ resets) × ¬ NoRight (2 ∷ 1 ∷ 2 ∷ []))
    ⊎ ((s' : Menu) × (menu_loop (2 ∷ 1 ∷ 2 ∷ 1 ∷ 3 ∷ []) first_menu ≡ leaves s')
        × (s'.looping ≡ 0)
        × (s'.menu_entry ≡ 1)
        × (on_screen (s'.events) ≡ 1))
menu_loop-ends_example = menu_loop-ends (2 ∷ 1 ∷ 2 ∷ [])
