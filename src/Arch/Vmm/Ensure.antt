-- ===== src/Arch/Vmm/Ensure.antt =====
-- The first three tests of `map_page`: afterwards the entry leads to a table.
use kess_os.Base.{ℕ, suc, ◌+◌, ◌*◌, ◌%◌, ◌^◌, ◌≤◌, ◌<◌, ◌≡◌, inl, inr}
use kess_os.Base.{arith, some, false, Bool-cases, ◌==◌}
use kess_os.Base.{dec_lt}
use kess_os.Arch.Vmm.{Vmm, Outcome, null_table, is_absent, add_table, ensure_table}
use kess_os.Arch.Vmm.Entry.{IsPresent, entry_at, is_absent-true, is_absent-false}
use kess_os.Arch.Vmm.Invariant.{Owner, assign, pages_left, IsTables, Extends, Extends-refl}
use kess_os.Arch.Vmm.NewTable.{with_table, new-IsTables, new-Extends, entry_self}
use kess_os.Arch.Vmm.Maps.{Maps, ran_out, mapped, Maps-widen, MapOk}

-- A new table, or the one that is there.
module _ {pml4 fuel : ℕ} {map : ℕ → Vmm → Outcome} (map_ok : MapOk pml4 fuel map) (clear : ℕ → ℕ)
    (clear_id : (x : ℕ) → x % 4096 ≡ 0 → x < 2 ^ 48 → clear x ≡ x) {s : Vmm} {o : Owner}
    (inv : IsTables pml4 s o) (p l v i : ℕ) (table : o p ≡ some (suc l, v)) (slot : i < 512) where
  abbrev pub Entered : Vmm → Owner → Type 0
  Entered s' o' = IsPresent (entry_at s'.ram p i)

  add_table-empty : pages_left s ≡ 0 → add_table map clear (p + 8 * i) s ≡ null_table
  unfolding add_table
  add_table-empty h = ground arith

  add_table-next :
      0 < pages_left s
      → add_table map clear (p + 8 * i) s ≡ map s.placement (with_table s (p + 8 * i))
  unfolding add_table
  add_table-next h =
      rw (some_left, not_null, clear_id s.placement inv.pool_aligned (omega (arith, inv.pool_low)))
    where
      some_left : (pages_left s == 0) ≡ false
      some_left = ground arith

      not_null : (s.placement == 0) ≡ false
      not_null = ground (arith, inv.pool_pos)

  entered :
      (absent : entry_at s.ram p i % 2 ≡ 0) (room : 0 < pages_left s) (u : Vmm) (o' : Owner)
      → Extends (with_table s (p + 8 * i)) (assign o s.placement (l, v * 512 + i)) u o'
      → Unit {0}
      → Entered u o'
  entered absent room u o' ext _ =
      let self = entry_self inv p l v i table slot absent room in
      omega (
        arith,
        self,
        inv.pool_aligned,
        ext.keeps_entry p (suc l) v i
            ((new-Extends inv p l v i table slot absent room).keeps p (suc l) v table) slot
            (omega (arith, self, inv.pool_aligned)),
      )

  add_table-Maps :
      entry_at s.ram p i % 2 ≡ 0
      → pages_left s ≤ fuel
      → Maps pml4 s o Entered (add_table map clear (p + 8 * i) s)
  add_table-Maps absent enough = elim (dec_lt 0 (pages_left s)) [
    | yes room ↦ rw (add_table-next room) (
        Maps-widen (new-Extends inv p l v i table slot absent room)
          (λ u o' _. entered absent room u o')
          (map_ok s.placement _ _ (new-IsTables inv p l v i table slot absent room)
            (omega (arith, inv.pool_low)) (omega arith)))
    | no empty ↦ rw (add_table-empty (omega arith)) ran_out
  ]

  pub ensure_table-Maps :
      pages_left s ≤ fuel → Maps pml4 s o Entered (ensure_table map clear (p + 8 * i) s)
  unfolding ensure_table
  ensure_table-Maps enough = elim (Bool-cases (is_absent s.ram (p + 8 * i))) [
    | inl absent ↦ rw absent (add_table-Maps (is_absent-true s.ram (p + 8 * i) absent) enough)
    | inr there ↦
        rw there (mapped s o inv (Extends-refl s o) (is_absent-false s.ram (p + 8 * i) there))
  ]
