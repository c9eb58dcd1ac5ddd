-- ===== src/Arch/Vmm/MapPage.antt =====
-- `map_page` ends, and leaves tables in which the page is mapped to itself.
use kess_os.Base.{ℕ, zero, suc, ◌+◌, ◌*◌, ◌/◌, ◌%◌, ◌^◌, ◌<◌, ◌≡◌, refl, sym, arith}
use kess_os.Base.{some, bit_and, ◌⊎◌, inl, inr}
use kess_os.Ram.{load64}
use kess_os.Arch.Vmm.{
  Vmm, Outcome, done, null_table, map_page, page_addr_mask, pml4_idx, pdp_idx, pd_idx, pt_idx,
}
use kess_os.Arch.Vmm.Entry.{frame, IsPresent, entry_at, bit_and-frame, idx_mask, translate}
use kess_os.Arch.Vmm.Invariant.{Owner, pages_left, IsTables, Extends, Extends-refl}
use kess_os.Arch.Vmm.Maps.{Maps, ran_out, mapped, Maps-widen, Maps-bind, MapOk, Link, Link-Extends}
use kess_os.Arch.Vmm.Ensure.{ensure_table-Maps}
use kess_os.Arch.Vmm.Leaf.{set_leaf-Maps}
use kess_os.Arch.Vmm.Walk.{idx-lt, Walked, translate-Walked}

masked : (x : ℕ) → x % 4096 ≡ 0 → x < 2 ^ 48 → bit_and x page_addr_mask ≡ x
masked x h l = omega (arith, bit_and-frame x)

idx-prefix :
    (logical : ℕ)
    → logical < 2 ^ 48
    → ((0 * 512 + pml4_idx logical) * 512 + pdp_idx logical) * 512 + pd_idx logical
      ≡ logical / 2 ^ 21
idx-prefix logical low =
    omega
      (arith, idx_mask (logical / 2 ^ 39), idx_mask (logical / 2 ^ 30), idx_mask (logical / 2 ^ 21))

page-prefix :
    (logical v : ℕ)
    → logical < 2 ^ 48
    → v ≡ logical / 2 ^ 21
    → frame logical ≡ (v * 512 + pt_idx logical) * 4096
page-prefix logical v low h = omega (arith, idx_mask (logical / 2 ^ 12))

Link-of :
    {s : Vmm} {p i : ℕ}
    → IsPresent (entry_at s.ram p i)
    → Link p i (bit_and (entry_at s.ram p i) page_addr_mask) s
Link-of {s} {p} {i} h = record { present = h; target = sym (bit_and-frame (entry_at s.ram p i)) }

module _ (pml4 : ℕ) where
  pub map_page-Maps :
      (fuel logical : ℕ) (s : Vmm) (o : Owner)
      → IsTables pml4 s o
      → logical < 2 ^ 48
      → pages_left s < fuel
      → Maps pml4 s o (Walked pml4 logical) (map_page pml4 fuel logical s)
  unfolding map_page
  map_page-Maps zero logical s o inv low enough = absurd (omega arith)
  map_page-Maps (suc fuel) logical s o inv low enough =
      let ok : MapOk pml4 fuel (map_page pml4 fuel) = λ l t p a b c.
        Maps-widen (Extends-refl t p) (λ _ _ _ _ _. tt) (map_page-Maps fuel l t p a b c) in
      let i3 = pml4_idx logical in
      let i2 = pdp_idx logical in
      let i1 = pd_idx logical in
      let i0 = pt_idx logical in
      Maps-bind _ (ensure_table-Maps ok _ masked inv pml4 2 0 i3 inv.root (idx-lt _) (omega arith))
        λ s1 o1 inv1 e1 p1.
          let q2 = bit_and (load64 s1.ram (pml4 + 8 * i3)) page_addr_mask in
          let t2 : o1 q2 ≡ some (2, 0 * 512 + i3) =
            rw (bit_and-frame (load64 s1.ram (pml4 + 8 * i3)))
              (inv1.child pml4 2 0 i3 inv1.root (idx-lt _) p1) in
          Maps-bind _
            (ensure_table-Maps ok _ (λ x _ _. refl) inv1 q2 1 _ i2 t2 (idx-lt _)
              (omega (arith, e1.fewer)))
            λ s2 o2 inv2 e2 p2.
              let q1 = bit_and (load64 s2.ram (q2 + 8 * i2)) page_addr_mask in
              let u2 = e2.keeps q2 2 _ t2 in
              let t1 : o2 q1 ≡ some (1, (0 * 512 + i3) * 512 + i2) =
                rw (bit_and-frame (load64 s2.ram (q2 + 8 * i2)))
                  (inv2.child q2 1 _ i2 u2 (idx-lt _) p2) in
              Maps-bind _
                (ensure_table-Maps ok _ (λ x _ _. refl) inv2 q1 0 _ i1 t1 (idx-lt _)
                  (omega (arith, e1.fewer, e2.fewer)))
                λ s3 o3 inv3 e3 p3.
                  let q0 = bit_and (load64 s3.ram (q1 + 8 * i1)) page_addr_mask in
                  let u1 = e3.keeps q1 1 _ t1 in
                  let t0 : o3 q0 ≡ some (0, ((0 * 512 + i3) * 512 + i2) * 512 + i1) =
                    rw (bit_and-frame (load64 s3.ram (q1 + 8 * i1)))
                      (inv3.child q1 0 _ i1 u1 (idx-lt _) p3) in
                  let v = ((0 * 512 + i3) * 512 + i2) * 512 + i1 in
                  let v_eq : v ≡ logical / 2 ^ 21 = idx-prefix logical low in
                  Maps-widen (Extends-refl s3 o3)
                    (λ s4 o4 inv4 e4 p4. record {
                      pdpt = q2;
                      pdt = q1;
                      pt = q0;
                      v3 = 0;
                      v2 = 0 * 512 + i3;
                      v1 = (0 * 512 + i3) * 512 + i2;
                      root = inv4.root;
                      pdpt_owned = e4.keeps q2 2 _ (e3.keeps q2 2 _ u2);
                      pdt_owned = e4.keeps q1 1 _ u1;
                      pt_owned = rw v_eq at (e4.keeps q0 0 _ t0);
                      to_pdpt = Link-Extends pml4 3 0 i3 q2 e4 inv3.root (idx-lt _) (
                          Link-Extends pml4 3 0 i3 q2 e3 inv2.root (idx-lt _)
                            (Link-Extends pml4 3 0 i3 q2 e2 inv1.root (idx-lt _) (Link-of p1)));
                      to_pdt =
                          Link-Extends q2 2 _ i2 q1 e4 (e3.keeps q2 2 _ u2) (idx-lt _)
                            (Link-Extends q2 2 _ i2 q1 e3 u2 (idx-lt _) (Link-of p2));
                      to_pt = Link-Extends q1 1 _ i1 q0 e4 u1 (idx-lt _) (Link-of p3);
                      present = p4;
                    })
                    (set_leaf-Maps inv3 q0 v i0 logical t0 (idx-lt _)
                      (page-prefix logical v low v_eq))

-- `map_page` ends, with more fuel than the pool has pages: either `alloc_page` ran dry on the way,
-- or it leaves well-formed tables that keep every entry that was present, and through which the
-- processor takes the mapped address to itself.
pub map_page-translates :
    (pml4 fuel logical : ℕ) (s : Vmm) (o : Owner)
    → IsTables pml4 s o
    → logical < 2 ^ 48
    → pages_left s < fuel
    → (map_page pml4 fuel logical s ≡ null_table)
      ⊎ ((s' : Vmm) × (o' : Owner) × (map_page pml4 fuel logical s ≡ done s')
          × IsTables pml4 s' o'
          × Extends s o s' o'
          × (translate s'.ram pml4 logical ≡ some logical))
map_page-translates pml4 fuel logical s o inv low enough =
    outcomes (map_page-Maps pml4 fuel logical s o inv low enough)
  where
    outcomes :
        {r : Outcome}
        → Maps pml4 s o (Walked pml4 logical) r
        → (r ≡ null_table)
          ⊎ ((s' : Vmm) × (o' : Owner) × (r ≡ done s')
              × IsTables pml4 s' o'
              × Extends s o s' o'
              × (translate s'.ram pml4 logical ≡ some logical))
    outcomes ran_out = inl refl
    outcomes (mapped s' o' inv' ext w) =
        inr (s', o', refl, inv', ext, translate-Walked logical inv' low w)
