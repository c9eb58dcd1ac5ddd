-- ===== src/Arch/Vmm/Invariant.antt =====
-- The invariant of the page tables. A ghost map says which pages are tables: `owner p` is the
-- level of the table in page `p` (3 for the PML4, 0 for a page table) with the part of the
-- logical address that leads to it.
use kess_os.Base.{ℕ, suc, ◌+◌, ◌*◌, ◌%◌, ◌^◌, ◌≤◌, ◌<◌, ◌≡◌, ◌⊎◌, ◌∙◌, refl, arith}
use kess_os.Base.{Option, some, ◌==◌, if◌then◌else◌}
use kess_os.Arch.Vmm.{Vmm}
use kess_os.Arch.Vmm.Entry.{frame, IsPresent, entry_at}

abbrev pub Owner : Type 0
Owner = ℕ → Option (ℕ × ℕ)

abbrev pub assign : Owner → ℕ → ℕ × ℕ → Owner
assign o p t x = if p == x then some t else o x

abbrev pub pages_left : Vmm → ℕ
pages_left s = s.biggest_segment.n_pages

pub record IsTables (pml4 : ℕ) (s : Vmm) (owner : Owner) : Type 0 where
  pub root : owner pml4 ≡ some (3, 0)
  pub aligned : (p l v : ℕ) → owner p ≡ some (l, v) → p % 4096 ≡ 0
  pub low : (p l v : ℕ) → owner p ≡ some (l, v) → p < 2 ^ 48
  pub outside :
      (p l v : ℕ)
      → owner p ≡ some (l, v)
      → (p + 4096 ≤ s.placement) ⊎ (s.placement + pages_left s * 4096 ≤ p)
  pub child :
      (p l v i : ℕ)
      → owner p ≡ some (suc l, v)
      → i < 512
      → IsPresent (entry_at s.ram p i)
      → owner (frame (entry_at s.ram p i)) ≡ some (l, v * 512 + i)
  pub leaf :
      (p v i : ℕ)
      → owner p ≡ some (0, v)
      → i < 512
      → IsPresent (entry_at s.ram p i)
      → frame (entry_at s.ram p i) ≡ (v * 512 + i) * 4096
  pub pool_aligned : s.placement % 4096 ≡ 0
  pub pool_pos : 0 < s.placement
  pub pool_low : s.placement + pages_left s * 4096 ≤ 2 ^ 48

-- What a step of the paging code keeps: the tables, and every entry that is present.
pub record Extends (s : Vmm) (o : Owner) (s' : Vmm) (o' : Owner) : Type 0 where
  pub keeps : (p l v : ℕ) → o p ≡ some (l, v) → o' p ≡ some (l, v)
  pub keeps_entry :
      (p l v i : ℕ)
      → o p ≡ some (l, v)
      → i < 512
      → IsPresent (entry_at s.ram p i)
      → entry_at s'.ram p i ≡ entry_at s.ram p i
  pub fewer : pages_left s' ≤ pages_left s

pub Extends-refl : (s : Vmm) (o : Owner) → Extends s o s o
Extends-refl s o = record {
  keeps = λ p l v h. h;
  keeps_entry = λ p l v i h b e. refl;
  fewer = omega arith;
}

pub Extends-trans :
    {s t u : Vmm} {o o' o'' : Owner} → Extends s o t o' → Extends t o' u o'' → Extends s o u o''
Extends-trans a b = record {
  keeps = λ p l v h. b.keeps p l v (a.keeps p l v h);
  keeps_entry = λ p l v i h q e.
      let same = a.keeps_entry p l v i h q e in
      b.keeps_entry p l v i (a.keeps p l v h) q (rw same e) ∙ same;
  fewer = omega (arith, a.fewer, b.fewer);
}
