-- ===== src/Boot/Elf/Laws.antt =====
-- `memcmp` as an equality test, and the headers it accepts.
use kess_os.Base.{ℕ, zero, suc, ◌+◌, ◌≡◌, ◌↔◌, refl, arith, false}
use kess_os.Ram.{Ram, load, load32}
use kess_os.Util.Text.Laws.{Same, Same-tail, Same-head, Same-cons}
use kess_os.Boot.Elf.{memcmp, header_bad}

memcmp-zero : (m : Ram) (a b n : ℕ) → memcmp m a b n ≡ 0 → Same m a b n
unfolding memcmp
memcmp-zero m a b zero h j lt = absurd (omega arith)
memcmp-zero m a b (suc n) h j lt =
    Same-cons m a b n (ground arith) (memcmp-zero m (a + 1) (b + 1) n (ground arith)) j lt

memcmp-Same : (m : Ram) (a b n : ℕ) → Same m a b n → memcmp m a b n ≡ 0
unfolding memcmp
memcmp-Same m a b zero h = refl
memcmp-Same m a b (suc n) h =
    ground (arith, Same-head m a b n h, memcmp-Same m (a + 1) (b + 1) n (Same-tail m a b n h))

-- The boot loader takes a kernel exactly when its header starts with the four magic bytes and says
-- that it is a 64-bit executable for x86-64 of the current version.
pub header_bad-accepts :
    (elf_mag : ℕ) (m : Ram) (header : ℕ)
    → (header_bad elf_mag m header ≡ false) ↔ (
        Same m header elf_mag 4
        × (m (header + 4) ≡ 2)
        × (load 2 m (header + 16) ≡ 2)
        × (load 2 m (header + 18) ≡ 62)
        × (load32 m (header + 20) ≡ 1))
unfolding header_bad
header_bad-accepts elf_mag m header = (
  (λ h. (
    memcmp-zero m header elf_mag 4 (ground arith),
    ground arith,
    ground arith,
    ground arith,
    ground arith,
  )),
  (λ g. ground (arith, memcmp-Same m header elf_mag 4 g.0, g.1)),
)
