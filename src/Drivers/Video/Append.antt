-- ===== src/Drivers/Video/Append.antt =====
-- Two texts written one after the other.
use kess_os.Base.{ℕ, ◌≡◌, List, [], ◌∷◌, ◌++◌, refl}
use kess_os.Ram.{Ram}
use kess_os.Drivers.Video.{Canvas, kwrite}

pub kwrite-append :
    (xs ys : List ℕ) (color : ℕ) (s : Canvas × Ram)
    → kwrite ys color (kwrite xs color s) ≡ kwrite (xs ++ ys) color s
unfolding kwrite
kwrite-append [] ys color s = refl
kwrite-append (x ∷ xs) ys color s = kwrite-append xs ys color _
