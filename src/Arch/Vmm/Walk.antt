-- ===== src/Arch/Vmm/Walk.antt =====
-- Entries that are linked make up the processor's walk.
use kess_os.Base.{ℕ, bit_and, ◌*◌, ◌/◌, ◌^◌, ◌<◌, ◌≡◌, some, arith, ap, ◌∙◌}
use kess_os.Arch.Vmm.{Vmm, pml4_idx, pdp_idx, pd_idx, pt_idx}
use kess_os.Arch.Vmm.Entry.{IsPresent, entry_at, idx_mask, walk_level, translate}
use kess_os.Arch.Vmm.Invariant.{Owner, IsTables, Extends}
use kess_os.Arch.Vmm.Maps.{Link, Link-Extends}

walk_level-Link : {s : Vmm} (p i q : ℕ) → Link p i q s → walk_level s.ram i p ≡ some q
unfolding walk_level
walk_level-Link p i q link = ground (arith, link.present, link.target)

-- Three linked tables and a present page entry: the walk for `logical` arrives.
pub record Walked (pml4 logical : ℕ) (s : Vmm) (o : Owner) : Type 0 where
  pub pdpt : ℕ
  pub pdt : ℕ
  pub pt : ℕ
  pub v3 : ℕ
  pub v2 : ℕ
  pub v1 : ℕ
  pub root : o pml4 ≡ some (3, v3)
  pub pdpt_owned : o pdpt ≡ some (2, v2)
  pub pdt_owned : o pdt ≡ some (1, v1)
  pub pt_owned : o pt ≡ some (0, logical / 2 ^ 21)
  pub to_pdpt : Link pml4 (pml4_idx logical) pdpt s
  pub to_pdt : Link pdpt (pdp_idx logical) pdt s
  pub to_pt : Link pdt (pd_idx logical) pt s
  pub present : IsPresent (entry_at s.ram pt (pt_idx logical))

pub idx-lt : (x : ℕ) → bit_and x 0x1ff < 512
idx-lt x = omega (arith, idx_mask x)

-- No later step of the paging code undoes a mapping.
pub Walked-Extends :
    {pml4 logical : ℕ} {s s' : Vmm} {o o' : Owner}
    → Extends s o s' o'
    → Walked pml4 logical s o
    → Walked pml4 logical s' o'
Walked-Extends {pml4} ext w = record {
  pdpt = w.pdpt;
  pdt = w.pdt;
  pt = w.pt;
  v3 = w.v3;
  v2 = w.v2;
  v1 = w.v1;
  root = ext.keeps pml4 3 w.v3 w.root;
  pdpt_owned = ext.keeps w.pdpt 2 w.v2 w.pdpt_owned;
  pdt_owned = ext.keeps w.pdt 1 w.v1 w.pdt_owned;
  pt_owned = ext.keeps w.pt 0 _ w.pt_owned;
  to_pdpt = Link-Extends pml4 3 w.v3 _ w.pdpt ext w.root (idx-lt _) w.to_pdpt;
  to_pdt = Link-Extends w.pdpt 2 w.v2 _ w.pdt ext w.pdpt_owned (idx-lt _) w.to_pdt;
  to_pt = Link-Extends w.pdt 1 w.v1 _ w.pt ext w.pdt_owned (idx-lt _) w.to_pt;
  present = rw (ext.keeps_entry w.pt 0 _ _ w.pt_owned (idx-lt _) w.present) w.present;
}

-- The walk depends on the page of the address only.
pub Walked-page :
    {pml4 : ℕ} {s : Vmm} {o : Owner} (a b : ℕ)
    → a / 4096 ≡ b / 4096
    → Walked pml4 a s o
    → Walked pml4 b s o
Walked-page a b e w =
    let d39 : a / 2 ^ 39 ≡ b / 2 ^ 39 = omega arith in
    let d30 : a / 2 ^ 30 ≡ b / 2 ^ 30 = omega arith in
    let d21 : a / 2 ^ 21 ≡ b / 2 ^ 21 = omega arith in
    let d12 : a / 2 ^ 12 ≡ b / 2 ^ 12 = omega arith in
    record {
      pdpt = w.pdpt;
      pdt = w.pdt;
      pt = w.pt;
      v3 = w.v3;
      v2 = w.v2;
      v1 = w.v1;
      root = w.root;
      pdpt_owned = w.pdpt_owned;
      pdt_owned = w.pdt_owned;
      pt_owned = rw d21 at w.pt_owned;
      to_pdpt = rw d39 at w.to_pdpt;
      to_pdt = rw d30 at w.to_pdt;
      to_pt = rw d21 at w.to_pt;
      present = rw d12 at w.present;
    }

-- An address whose walk arrives is translated to itself.
pub translate-Walked :
    {pml4 : ℕ} {s : Vmm} {o : Owner} (logical : ℕ)
    → IsTables pml4 s o
    → logical < 2 ^ 48
    → Walked pml4 logical s o
    → translate s.ram pml4 logical ≡ some logical
unfolding translate
translate-Walked {pml4} {s} logical inv low w =
    rw
      (
        ← idx_mask (logical / 2 ^ 39),
        ← idx_mask (logical / 2 ^ 30),
        ← idx_mask (logical / 2 ^ 21),
        ← idx_mask (logical / 2 ^ 12),
        walk_level-Link pml4 (pml4_idx logical) w.pdpt w.to_pdpt,
        walk_level-Link w.pdpt (pdp_idx logical) w.pdt w.to_pdt,
        walk_level-Link w.pdt (pd_idx logical) w.pt w.to_pt,
        walk_level-Link w.pt (pt_idx logical) (logical / 4096 * 4096) page,
      )
      (ap some (omega arith))
  where
    page : Link w.pt (pt_idx logical) (logical / 4096 * 4096) s
    page = record {
      present = w.present;
      target =
          inv.leaf w.pt (logical / 2 ^ 21) (pt_idx logical) w.pt_owned
            (omega (arith, idx_mask (logical / 2 ^ 12))) w.present
          ∙ omega (arith, idx_mask (logical / 2 ^ 12));
    }
