-- ===== src/Boot/Menu/Laws.antt =====
-- What is on the screen, and when the menu ends.
use kess_os.Base.{ℕ, ◌≤◌, ◌≡◌, ◌≢◌, ◌⊎◌, inl, inr, refl, arith, ◌==◌, true, false}
use kess_os.Base.{List, [], ◌∷◌, ◌++◌, Option, none, some, ℕ_discrete, ◌∙◌}
use kess_os.Boot.Menu.{
  Menu, MenuEvent, shows_boot, shows_reboot, first_menu, menu_round, menu_loop, resets, leaves,
}

-- The screen that was drawn last.
abbrev pub on_screen : List MenuEvent → ℕ
on_screen [] = 1
on_screen (shows_boot ∷ es) = 1
on_screen (shows_reboot ∷ es) = 0

-- No key is the right arrow.
abbrev pub NoRight : (keys : List ℕ) → Type 0
NoRight [] = Unit
NoRight (k ∷ keys) = (k ≢ 3) × NoRight keys

-- The variables stay Boolean, the screen shows the entry that is selected, and the machine is
-- booted only from the first entry.
pub record IsMenu (s : Menu) : Type 0 where
  pub entry : s.menu_entry ≤ 1
  pub running : s.looping ≤ 1
  pub shown : on_screen s.events ≡ s.menu_entry
  pub left_from : s.looping ≡ 0 → s.menu_entry ≡ 1
  pub legacy : s.legacy_boot ≡ 1 → s.looping ≡ 0

menu_round-IsMenu :
    (k : ℕ) (s s' : Menu) → s.looping ≡ 1 → IsMenu s → menu_round k s ≡ some s' → IsMenu s'
unfolding menu_round
menu_round-IsMenu k s s' running v e = record {
  entry = ground (arith, v.entry);
  running = ground (arith, v.running);
  shown = ground (arith, v.entry, v.shown);
  left_from = ground (arith, v.entry, v.left_from);
  legacy = ground (arith, v.entry, v.legacy);
}

-- Only the right arrow on the second entry resets the machine.
menu_round-resets : (k : ℕ) (s : Menu) → menu_round k s ≡ none → (k ≡ 3) × (s.menu_entry ≡ 0)
unfolding menu_round
menu_round-resets k s e = (ground arith, ground arith)

up-selects : (s s' : Menu) → IsMenu s → menu_round 1 s ≡ some s' → s'.menu_entry ≡ 1
unfolding menu_round
up-selects s s' v e = ground (arith, v.entry)

right-leaves : (s s' : Menu) → s.menu_entry ≡ 1 → menu_round 3 s ≡ some s' → s'.looping ≡ 0
unfolding menu_round
right-leaves s s' h e = ground arith

-- The loop on these keys resets the machine, which `Reset` explains, or it ends in a good state.
abbrev Ends : (Reset : Type 0) → List ℕ → Menu → Type 0
Ends Reset keys s =
    ((menu_loop keys s ≡ resets) × Reset)
    ⊎ ((s' : Menu) × (menu_loop keys s ≡ leaves s') × IsMenu s' × (s'.looping ≡ 0))

stopped : (Reset : Type 0) (keys : List ℕ) (s : Menu) → s.looping ≡ 0 → IsMenu s → Ends Reset keys s
unfolding menu_loop
stopped Reset [] s h v =
    let test : (s.looping == 0) ≡ true = ground arith in inr (s, rw test refl, v, h)
stopped Reset (k ∷ keys) s h v =
    let test : (s.looping == 0) ≡ true = ground arith in inr (s, rw test refl, v, h)

goes_on :
    (k : ℕ) (keys : List ℕ) (s s' : Menu)
    → s.looping ≡ 1
    → menu_round k s ≡ some s'
    → menu_loop (k ∷ keys) s ≡ menu_loop keys s'
unfolding menu_loop
goes_on k keys s s' h e = let test : (s.looping == 0) ≡ false = ground arith in rw (test, e) refl

reset_here :
    (k : ℕ) (keys : List ℕ) (s : Menu)
    → s.looping ≡ 1
    → menu_round k s ≡ none
    → menu_loop (k ∷ keys) s ≡ resets
unfolding menu_loop
reset_here k keys s h e = let test : (s.looping == 0) ≡ false = ground arith in rw (test, e) refl

round_cases : (r : Option Menu) → (r ≡ none) ⊎ ((s' : Menu) × (r ≡ some s'))
round_cases none = inl refl
round_cases (some s') = inr (s', refl)

-- A round is made, unless the loop has ended.
step_to :
    (Reset : Type 0) (k : ℕ) (keys : List ℕ) (s : Menu)
    → IsMenu s
    → (k ≡ 3 → s.menu_entry ≡ 0 → Reset)
    → ((t : Menu) → IsMenu t → menu_round k s ≡ some t → Ends Reset keys t)
    → Ends Reset (k ∷ keys) s
step_to Reset k keys s v why rest = elim (ℕ_discrete (s.looping) 0) [
  | yes h ↦ stopped Reset (k ∷ keys) s h v
  | no go ↦
      let running : s.looping ≡ 1 = omega (arith, v.running) in
      elim (round_cases (menu_round k s)) [
        | inl e ↦
            let (right, second) = menu_round-resets k s e in
            inl (reset_here k keys s running e, why right second)
        | inr (t, e) ↦
            rw (goes_on k keys s t running e) (rest t (menu_round-IsMenu k s t running v e) e)
      ]
]

Ends-after : (keys : List ℕ) (s : Menu) → IsMenu s → Ends (¬ NoRight keys) (keys ++ 1 ∷ 3 ∷ []) s
Ends-after (k ∷ keys) s v =
    step_to _ k (keys ++ 1 ∷ 3 ∷ []) s v (λ right second none_right. none_right.0 right)
      (λ t w e. elim (Ends-after keys t w) [
        | inl (r, some_right) ↦ inl (r, λ none_right. some_right (none_right.1))
        | inr left_menu ↦ inr left_menu
      ])
Ends-after [] s v =
    step_to _ 1 (3 ∷ []) s v (λ right second none_right. absurd (omega (arith, right)))
      (λ t w e.
        let first = up-selects s t v e in
        step_to _ 3 [] t w (λ right second none_right. absurd (omega (arith, first, second)))
          (λ t' w' e'. stopped _ [] t' (right-leaves t t' first e') w'))

first-IsMenu : IsMenu first_menu
first-IsMenu = record {
  entry = omega arith;
  running = omega arith;
  shown = refl;
  left_from = λ h. refl;
  legacy = λ h. absurd (omega arith);
}

-- Whatever keys are pressed first, the up arrow and then the right arrow end the menu. The machine
-- is reset, which it is only if one of the first keys was the right arrow; or the loop is left with
-- the first entry selected and on the screen.
pub menu_loop-ends :
    (keys : List ℕ)
    → ((menu_loop (keys ++ 1 ∷ 3 ∷ []) first_menu ≡ resets) × ¬ NoRight keys)
      ⊎ ((s' : Menu) × (menu_loop (keys ++ 1 ∷ 3 ∷ []) first_menu ≡ leaves s')
          × (s'.looping ≡ 0)
          × (s'.menu_entry ≡ 1)
          × (on_screen s'.events ≡ 1))
menu_loop-ends keys = elim (Ends-after keys first_menu first-IsMenu) [
  | inl r ↦ inl r
  | inr (s', e, v, stops) ↦ inr (s', e, stops, v.left_from stops, v.shown ∙ v.left_from stops)
]

-- With no right arrow among the first keys, the loop is left.
pub menu_loop-leaves :
    (keys : List ℕ)
    → NoRight keys
    → (s' : Menu) × (menu_loop (keys ++ 1 ∷ 3 ∷ []) first_menu ≡ leaves s')
menu_loop-leaves keys none_right = elim (menu_loop-ends keys) [
  | inl (r, some_right) ↦ absurd (some_right none_right)
  | inr (s', e, stops, first, shown) ↦ (s', e)
]
