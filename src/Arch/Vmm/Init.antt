-- ===== src/Arch/Vmm/Init.antt =====
-- `init_vmm` maps the first 6 GB to themselves.
use kess_os.Base.{ℕ, zero, suc, ◌+◌, ◌*◌, ◌/◌, ◌%◌, ◌^◌, ◌≤◌, ◌<◌, ◌≡◌, ◌⊎◌, inl, inr, refl, arith}
use kess_os.Base.{some, none, ◌==◌, if◌then◌else◌, dec_lt}
use kess_os.Util.Bytes.{memzero}
use kess_os.Arch.MemoryMap.{Memdesc, Meminfo, get_mmap_entries}
use kess_os.Arch.Vmm.{
  Vmm, Outcome, done, null_table, biggest_loop, set_placement, map_loop, init_vmm, gb,
}
use kess_os.Arch.Vmm.Entry.{entry_at, IsPresent, entry-memzero_self, translate}
use kess_os.Arch.Vmm.Invariant.{Owner, pages_left, IsTables, Extends-refl}
use kess_os.Arch.Vmm.Maps.{Maps, ran_out, mapped, Maps-widen, Maps-bind}
use kess_os.Arch.Vmm.Walk.{Walked, Walked-Extends, Walked-page, translate-Walked}
use kess_os.Arch.Vmm.MapPage.{map_page-Maps}

-- Every page of `[lo, hi)` is mapped to itself.
abbrev AllWalked : (pml4 lo hi : ℕ) → Vmm → Owner → Type 0
AllWalked pml4 lo hi s o = (a : ℕ) → lo ≤ a → a < hi → Walked pml4 a s o

map_loop-Maps :
    (pml4 fuel left i hi : ℕ) (s : Vmm) (o : Owner)
    → IsTables pml4 s o
    → i + left * 4096 ≡ hi
    → i % 4096 ≡ 0
    → hi ≤ 2 ^ 48
    → pages_left s < fuel
    → Maps pml4 s o (AllWalked pml4 i hi) (map_loop pml4 fuel left i s)
unfolding map_loop
map_loop-Maps pml4 fuel zero i hi s o inv e al small enough =
    mapped s o inv (Extends-refl s o) (λ a p q. absurd (omega arith))
map_loop-Maps pml4 fuel (suc left) i hi s o inv e al small enough =
    Maps-bind _ (map_page-Maps pml4 fuel i s o inv (omega arith) enough) λ s1 o1 inv1 e1 here.
      Maps-widen (Extends-refl s1 o1)
        (λ t p inv' ext rest a lo below. elim (dec_lt a (i + 4096)) [
          | yes first ↦ Walked-page i a (omega arith) (Walked-Extends ext here)
          | no later ↦ rest a (omega arith) below
        ])
        (map_loop-Maps pml4 fuel left (i + 4096) hi s1 o1 inv1 (omega arith) (omega arith) small
          (omega (arith, e1.fewer)))

-- At the start only the cleared top table is there.
abbrev pub only_root : ℕ → Owner
only_root pml4 p = if pml4 == p then some (3, 0) else none

-- The segment that `set_placement` picks.
abbrev pub segment : Meminfo → Vmm → (entries : ℕ) → Memdesc
segment meminfo s entries =
    biggest_loop s.ram meminfo entries 0 (record (s.biggest_segment) { n_pages = 0 })

-- What the boot loader and the linker promise: the segment picked starts on a page other than
-- page 0, lies below 2 ^ 48, and the static top table is a page outside it.
pub record IsPool (pml4 : ℕ) (b : Memdesc) : Type 0 where
  pub aligned : b.phys_addr % 4096 ≡ 0
  pub not_first : 0 < b.phys_addr
  pub low : b.phys_addr + b.n_pages * 4096 ≤ 2 ^ 48
  pub pml4_aligned : pml4 % 4096 ≡ 0
  pub pml4_low : pml4 < 2 ^ 48
  pub apart : (pml4 + 4096 ≤ b.phys_addr) ⊎ (b.phys_addr + b.n_pages * 4096 ≤ pml4)

module _ {pml4 : ℕ} {b : Memdesc} (pool : IsPool pml4 b) (s : Vmm) where
  abbrev pub cleared : Vmm
  cleared = record s { ram = memzero s.ram pml4 4096; placement = b.phys_addr; biggest_segment = b }

  is_root : (p l v : ℕ) → only_root pml4 p ≡ some (l, v) → pml4 ≡ p
  is_root p l v h = ground arith

  no_entry :
      (p l v i : ℕ)
      → only_root pml4 p ≡ some (l, v)
      → i < 512
      → ¬ IsPresent (entry_at cleared.ram p i)
  no_entry p l v i h b e = ground (arith, is_root p l v h, entry-memzero_self s.ram pml4 i b)

  pub cleared-IsTables : IsTables pml4 cleared (only_root pml4)
  cleared-IsTables = record {
    root = ground arith;
    aligned = λ p l v h. ground (arith, is_root p l v h, pool.pml4_aligned);
    low = λ p l v h. ground (arith, is_root p l v h, pool.pml4_low);
    outside = λ p l v h. rw (← is_root p l v h) (pool.apart);
    child = λ p l v i h b e. absurd (no_entry p (suc l) v i h b e);
    leaf = λ p v i h b e. absurd (no_entry p 0 v i h b e);
    pool_aligned = pool.aligned;
    pool_pos = pool.not_first;
    pool_low = pool.low;
  }

-- The two ends of `init_vmm`: the pool ran out, or every address below 6 GB is mapped to itself.
abbrev pub Identity : (pml4 : ℕ) → Outcome → Type 0
Identity pml4 r =
    (r ≡ null_table)
    ⊎ ((s' : Vmm) × (r ≡ done s') × ((a : ℕ) → a < gb * 6 → translate s'.ram pml4 a ≡ some a))

Maps-Identity :
    {pml4 hi : ℕ} {s : Vmm} {o : Owner} {r : Outcome}
    → hi ≡ gb * 6
    → Maps pml4 s o (AllWalked pml4 0 hi) r
    → Identity pml4 r
Maps-Identity e ran_out = inl refl
Maps-Identity e (mapped s' o' inv ext all) =
    inr (
      s',
      refl,
      λ a below. translate-Walked a inv (omega arith) (all a (omega arith) (omega arith)),
    )

pub set_placement-done :
    (meminfo : Meminfo) (s : Vmm) (entries : ℕ)
    → get_mmap_entries meminfo ≡ some entries
    → set_placement meminfo s
      ≡ done (record s {
        biggest_segment = segment meminfo s entries;
        placement = (segment meminfo s entries).phys_addr;
      })
unfolding set_placement
set_placement-done meminfo s entries counted = ground (arith, counted)

-- `init_vmm` ends, with as much fuel as the pool has pages: either `alloc_page` ran dry on the
-- way, or the processor's walk through the tables it leaves takes every address below 6 GB to
-- itself.
pub init_vmm-Identity :
    (pml4 fuel : ℕ) (meminfo : Meminfo) (s : Vmm) (entries : ℕ)
    → get_mmap_entries meminfo ≡ some entries
    → IsPool pml4 (segment meminfo s entries)
    → (segment meminfo s entries).n_pages < fuel
    → Identity pml4 (init_vmm pml4 fuel meminfo s)
unfolding init_vmm
init_vmm-Identity pml4 fuel meminfo s entries counted pool enough =
    rw (set_placement-done meminfo s entries counted) (
      Maps-Identity refl (
        map_loop-Maps pml4 fuel (gb * 6 / 4096) 0 (gb * 6) _ _ (cleared-IsTables pool s) refl refl
          (omega arith) enough))
