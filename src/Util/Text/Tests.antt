-- ===== src/Util/Text/Tests.antt =====
-- Runs and instances of the string routines.
use kess_os.Base.{ℕ, ◌≤◌, ◌⊎◌, ◌↔◌, ◌≡◌, refl, arith}
use kess_os.Base.{List, [], ◌∷◌, length, some, get_or}
use kess_os.Ram.{Ram}
use kess_os.Util.Text.{strlen, strncmp, hex2str}
use kess_os.Util.Text.Laws.{Same, strlen-Holds, strncmp-Same}
use kess_os.Util.Text.Digits.{Shows}
use kess_os.Util.Text.Hex.{AreHexDigits, hex_value, hex2str-Shows}

-- "Kess" at 1, and at 6 "Kes" with the zero.
abbrev greeting : Ram
greeting x = get_or (0 ∷ b'K' ∷ b'e' ∷ b's' ∷ b's' ∷ 0 ∷ b'K' ∷ b'e' ∷ b's' ∷ 0 ∷ []) x 0

abbrev blank : Ram
blank x = 0

abbrev kess : List ℕ
kess = b'K' ∷ b'e' ∷ b's' ∷ b's' ∷ []

strlen-Holds_example : strlen 5 greeting 1 ≡ some (length kess)
strlen-Holds_example =
    strlen-Holds 5 greeting 1 kess (refl, (refl, (refl, (refl, refl))))
      (omega arith, (omega arith, (omega arith, (omega arith, tt)))) (omega arith)

strncmp-Same_example :
    ((strncmp greeting 1 6 3 ≡ 1) ↔ Same greeting 1 6 3)
    × ((strncmp greeting 1 6 3 ≡ 0) ⊎ (strncmp greeting 1 6 3 ≡ 1))
strncmp-Same_example = strncmp-Same greeting 1 6 3 (omega arith) (omega arith)

hex2str-Shows_example :
    (cs : List ℕ) × Shows blank 100 (b'0' ∷ b'x' ∷ cs) (hex2str blank 100 0xCAFE)
    × (2 ≤ length cs)
    × AreHexDigits cs
    × (hex_value 0 cs ≡ 0xCAFE)
hex2str-Shows_example = hex2str-Shows blank 100 0xCAFE (λ x. omega arith) (omega arith)
