-- ===== src/Boot/Font/Laws.antt =====
-- The boot loader's `strlen` counts the terminating zero.
use kess_os.Base.{
  ℕ, zero, suc, ◌+◌, ◌<◌, ◌≡◌, arith, length, some, List, [], ◌∷◌, ◌==◌, true, false, ◌∙◌, ap,
}
use kess_os.Ram.{Ram}
use kess_os.Util.Text.Laws.{Holds, NonZero}
use kess_os.Boot.Font.{boot_strlen_loop, boot_strlen}

boot_strlen_loop-Holds :
    (fuel : ℕ) (m : Ram) (str len at' : ℕ) (cs : List ℕ)
    → at' ≡ str + len
    → Holds m at' cs
    → NonZero cs
    → length cs < fuel
    → boot_strlen_loop fuel m str len ≡ some (length cs + 1 + len)
unfolding boot_strlen_loop
boot_strlen_loop-Holds zero m str len at' cs e h nz enough = absurd (omega arith)
boot_strlen_loop-Holds (suc fuel) m str len at' [] e h nz enough =
    let stop : (m (str + len) == 0) ≡ true = ground arith in rw stop (ap some (omega arith))
boot_strlen_loop-Holds (suc fuel) m str len at' (c ∷ cs) e h nz enough =
    let go : (m (str + len) == 0) ≡ false = ground arith in
    rw go (
      boot_strlen_loop-Holds fuel m str (len + 1) (at' + 1) cs (omega arith) h.1 nz.1 (omega arith)
      ∙ ap some (omega arith))

-- Given more fuel than there are characters, the boot loader's `strlen` ends and returns one more
-- than the number of characters before the terminating zero.
boot_strlen-Holds :
    (fuel : ℕ) (m : Ram) (str : ℕ) (cs : List ℕ)
    → Holds m str cs
    → NonZero cs
    → length cs < fuel
    → boot_strlen fuel m str ≡ some (length cs + 1)
unfolding boot_strlen
boot_strlen-Holds fuel m str cs h nz enough =
    boot_strlen_loop-Holds fuel m str 0 str cs (omega arith) h nz enough ∙ ap some (omega arith)
