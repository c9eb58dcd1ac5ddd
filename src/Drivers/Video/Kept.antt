-- ===== src/Drivers/Video/Kept.antt =====
-- Writing keeps the frame buffer of the canvas.
use kess_os.Base.{
  ℕ, ◌≡◌, refl, List, [], ◌∷◌, ◌∙◌, inl, inr, Bool-cases, ◌==◌, leb, Option, none, some,
}
use kess_os.Ram.{Ram}
use kess_os.Drivers.Video.{Framebuffer, Canvas, write_char, kwrite}

pub write_char-lfb : (color chr : ℕ) (s : Canvas × Ram) → (write_char color chr s).0.lfb ≡ s.0.lfb
unfolding write_char
write_char-lfb color chr (canvas, m) = elim (Bool-cases (chr == 0x0A)) [
  | inl feed ↦ rw feed refl
  | inr drawn ↦ elim (Bool-cases (leb canvas.lfb.height canvas.y)) [
    | inl over ↦ rw (drawn, over) refl
    | inr on ↦ rw (drawn, on) refl
  ]
]

pub kwrite-lfb :
    (str : List ℕ) (color : ℕ) (s : Canvas × Ram) → (kwrite str color s).0.lfb ≡ s.0.lfb
unfolding kwrite
kwrite-lfb [] color s = refl
kwrite-lfb (c ∷ str) color s =
    kwrite-lfb str color (write_char color c s) ∙ write_char-lfb color c s

-- A screen on this frame buffer, if there is one.
abbrev pub IsOn : Framebuffer → Option (Canvas × Ram) → Type 0
IsOn lfb none = Unit
IsOn lfb (some s) = s.0.lfb ≡ lfb
