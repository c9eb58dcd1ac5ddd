-- ===== src/Arch/Vmm/Pages.antt =====
-- The segment that `set_placement` picks, and the pages that `alloc_page` takes from it.
use kess_os.Base.{ℕ, zero, suc, ◌+◌, ◌-◌, ◌*◌, ◌^◌, ◌≤◌, ◌<◌, ◌≡◌, ◌⊎◌, inl, inr, refl, arith}
use kess_os.Base.{some, ◌==◌, ltb, ◌&&◌, false, Bool-cases, ℕ_discrete, ◌∙◌, ap}
use kess_os.Ram.{Ram}
use kess_os.Ram.Laws.{load-cong}
use kess_os.Arch.MemoryMap.{
  Memdesc, Meminfo, read_memdesc, mmap_iterator_helper, get_mmap_entries, mem_type_code,
}
use kess_os.Arch.Vmm.{Vmm, done, bigger, biggest_loop, set_placement, alloc_page}
use kess_os.Arch.Vmm.Init.{segment, set_placement-done}

-- The descriptor number `i` of the map.
abbrev pub descriptor : Ram → Meminfo → (i : ℕ) → Memdesc
descriptor m meminfo i = read_memdesc m (mmap_iterator_helper i meminfo)

abbrev pub IsUsable : Memdesc → Type 0
IsUsable d = d.type ≡ 7

-- Of the first `n` descriptors no usable one has more pages; `b` is one of the usable, or has no
-- page.
pub record IsBiggest (m : Ram) (meminfo : Meminfo) (n : ℕ) (b : Memdesc) : Type 0 where
  pub most :
      (i : ℕ)
      → i < n
      → IsUsable (descriptor m meminfo i)
      → (descriptor m meminfo i).n_pages ≤ b.n_pages
  pub taken :
      (b.n_pages ≡ 0)
      ⊎ ((i : ℕ) × (i < n) × IsUsable (descriptor m meminfo i) × (b ≡ descriptor m meminfo i))

module _ (m : Ram) (meminfo : Meminfo) where
  bigger-IsBiggest :
      (i : ℕ) (b : Memdesc)
      → IsBiggest m meminfo i b
      → IsBiggest m meminfo (i + 1) (bigger (descriptor m meminfo i) b)
  unfolding bigger mem_type_code
  bigger-IsBiggest i b v =
      let d = descriptor m meminfo i in
      elim (Bool-cases (ltb b.n_pages d.n_pages && d.type == 7)) [
        | inl new ↦ rw new (record {
          most = λ j h u. elim (ℕ_discrete j i) [
            | yes same ↦ rw same (omega arith)
            | no other ↦ ground (arith, v.most j (omega arith) u)
          ];
          taken = inr (i, omega arith, ground arith, refl);
        })
        | inr old ↦ rw old (record {
          most = λ j h u. elim (ℕ_discrete j i) [
            | yes same ↦ last j same u old
            | no other ↦ v.most j (omega arith) u
          ];
          taken = earlier v.taken;
        })
      ]
    where
      last :
          (j : ℕ)
          → j ≡ i
          → IsUsable (descriptor m meminfo j)
          → (ltb b.n_pages (descriptor m meminfo i).n_pages && (descriptor m meminfo i).type == 7)
            ≡ false
          → (descriptor m meminfo j).n_pages ≤ b.n_pages
      last j same u old =
          rw same (let u' : IsUsable (descriptor m meminfo i) = rw same at u in ground arith)

      earlier :
          (b.n_pages ≡ 0)
            ⊎ ((j : ℕ) × (j < i) × IsUsable (descriptor m meminfo j) × (b ≡ descriptor m meminfo j))
          → (b.n_pages ≡ 0)
            ⊎ ((j : ℕ) × (j < i + 1)
                × IsUsable (descriptor m meminfo j)
                × (b ≡ descriptor m meminfo j))
      earlier (inl e) = inl e
      earlier (inr (j, h, u, e)) = inr (j, omega arith, u, e)

  biggest_loop-IsBiggest :
      (left i n : ℕ) (b : Memdesc)
      → i + left ≡ n
      → IsBiggest m meminfo i b
      → IsBiggest m meminfo n (biggest_loop m meminfo left i b)
  unfolding biggest_loop
  biggest_loop-IsBiggest zero i n b e v = let same : i ≡ n = omega arith in rw (← same) v
  biggest_loop-IsBiggest (suc left) i n b e v =
      biggest_loop-IsBiggest left (i + 1) n _ (omega arith) (bigger-IsBiggest i b v)

-- The state after so many calls of `alloc_page`.
abbrev pub allocated : ℕ → Vmm → Vmm
allocated zero s = s
allocated (suc k) s = allocated k (alloc_page s).1

alloc_page-empty : (s : Vmm) → s.biggest_segment.n_pages ≡ 0 → (alloc_page s).1 ≡ s
unfolding alloc_page
alloc_page-empty s h = ground arith

alloc_page-next :
    (s : Vmm)
    → 0 < s.biggest_segment.n_pages
    → s.placement + 4096 < 2 ^ 64
    → ((alloc_page s).1.placement ≡ s.placement + 4096)
      × ((alloc_page s).1.biggest_segment.n_pages ≡ s.biggest_segment.n_pages - 1)
unfolding alloc_page
alloc_page-next s h fits = ground arith

alloc_page-first :
    (s : Vmm)
    → (0 < s.biggest_segment.n_pages → (alloc_page s).0 ≡ s.placement)
      × (s.biggest_segment.n_pages ≡ 0 → (alloc_page s).0 ≡ 0)
unfolding alloc_page
alloc_page-first s = ground arith

alloc_page-kth :
    (k : ℕ) (s : Vmm)
    → s.placement + s.biggest_segment.n_pages * 4096 < 2 ^ 64
    → (k < s.biggest_segment.n_pages → (alloc_page (allocated k s)).0 ≡ s.placement + k * 4096)
      × (s.biggest_segment.n_pages ≤ k → (alloc_page (allocated k s)).0 ≡ 0)
alloc_page-kth zero s h =
    ((λ l. omega (arith, (alloc_page-first s).0 l)), (λ l. (alloc_page-first s).1 (omega arith)))
alloc_page-kth (suc k) s h = elim (ℕ_discrete (s.biggest_segment.n_pages) 0) [
  | yes empty ↦
      let same = alloc_page-empty s empty in
      rw same ((λ l. absurd (omega arith)), (λ l. (alloc_page-kth k s h).1 (omega arith)))
  | no more ↦
      let next = alloc_page-next s (omega arith) (omega arith) in
      let rest = alloc_page-kth k (alloc_page s).1 (omega (arith, next)) in
      (
        (λ l. omega (arith, next, rest.0 (omega (arith, next)))),
        (λ l. rest.1 (omega (arith, next))),
      )
]

-- After `set_placement`, with a map whose biggest usable segment ends below 2 ^ 64: `alloc_page`
-- returns the pages of that segment in order, each of them once, and NULL from then on. No usable
-- segment of the map has more pages.
pub set_placement-alloc_page :
    (meminfo : Meminfo) (s : Vmm) (entries : ℕ)
    → get_mmap_entries meminfo ≡ some entries
    → let b = segment meminfo s entries in
      b.phys_addr + b.n_pages * 4096 < 2 ^ 64
      → (s' : Vmm) × (set_placement meminfo s ≡ done s')
        × IsBiggest s.ram meminfo entries b
        × ((k : ℕ)
            → (k < b.n_pages → (alloc_page (allocated k s')).0 ≡ b.phys_addr + k * 4096)
              × (b.n_pages ≤ k → (alloc_page (allocated k s')).0 ≡ 0))
set_placement-alloc_page meminfo s entries counted fits =
    let b = segment meminfo s entries in
    let s' = record s { biggest_segment = b; placement = b.phys_addr } in
    let nothing : IsBiggest s.ram meminfo 0 (record (s.biggest_segment) { n_pages = 0 }) = record {
      most = λ i h. absurd (omega arith);
      taken = inl refl;
    } in
    (
      s',
      set_placement-done meminfo s entries counted,
      biggest_loop-IsBiggest s.ram meminfo entries 0 entries _ (omega arith) nothing,
      λ k. alloc_page-kth k s' fits,
    )

read_memdesc-agree :
    (m r : Ram) (p : ℕ)
    → ((x : ℕ) → p ≤ x → x < p + 40 → r x ≡ m x)
    → read_memdesc r p ≡ read_memdesc m p
unfolding read_memdesc
read_memdesc-agree m r p h =
    let type = load-cong 4 r m p (λ x lo hi. h x (omega arith) (omega arith)) in
    let phys = load-cong 8 r m (p + 8) (λ x lo hi. h x (omega arith) (omega arith)) in
    let virt = load-cong 8 r m (p + 16) (λ x lo hi. h x (omega arith) (omega arith)) in
    let pages = load-cong 8 r m (p + 24) (λ x lo hi. h x (omega arith) (omega arith)) in
    let attr = load-cong 8 r m (p + 32) (λ x lo hi. h x (omega arith) (omega arith)) in
    rw (type, phys, virt, pages, attr) refl

-- The segment that is picked depends on the bytes of the descriptors alone.
pub biggest_loop-agree :
    (m r : Ram) (meminfo : Meminfo) (left i : ℕ) (b : Memdesc)
    → ((j : ℕ) → j < i + left → (x : ℕ) → x < mmap_iterator_helper j meminfo + 40 → r x ≡ m x)
    → biggest_loop r meminfo left i b ≡ biggest_loop m meminfo left i b
unfolding biggest_loop
biggest_loop-agree m r meminfo zero i b h = refl
biggest_loop-agree m r meminfo (suc left) i b h =
    let here =
      read_memdesc-agree m r (mmap_iterator_helper i meminfo) (λ x lo hi. h i (omega arith) x hi) in
    biggest_loop-agree m r meminfo left (i + 1) _ (λ j below. h j (omega arith))
    ∙ ap (λ d. biggest_loop m meminfo left (i + 1) (bigger d b)) here
