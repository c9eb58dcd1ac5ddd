-- ===== src/Arch/Vmm/Leaf.antt =====
-- The last test of `map_page`: afterwards the page's own entry is present.
use kess_os.Base.{ℕ, suc, ◌+◌, ◌*◌, ◌%◌, ◌<◌, ◌≡◌, ◌≢◌, ◌⊎◌, inl, inr}
use kess_os.Base.{◌∙◌, ap, sym, arith, some, Bool-cases}
use kess_os.Base.{bit_and, bit_or, ℕ_discrete}
use kess_os.Ram.{load64, store64}
use kess_os.Arch.Vmm.{Vmm, is_absent, set_leaf, page_addr_mask, flags}
use kess_os.Arch.Vmm.Entry.{
  frame, IsPresent, entry_at, is_absent-true, is_absent-false, entry-flags, entry-set_self,
  entry-set_ne,
}
use kess_os.Arch.Vmm.Invariant.{Owner, IsTables, Extends, Extends-refl}
use kess_os.Arch.Vmm.Maps.{Maps, mapped}

module _ {pml4 : ℕ} {s : Vmm} {o : Owner} (inv : IsTables pml4 s o) (p v i logical : ℕ)
    (table : o p ≡ some (0, v)) (slot : i < 512) (here : frame logical ≡ (v * 512 + i) * 4096) where
  abbrev Entered : Vmm → Owner → Type 0
  Entered s' o' = IsPresent (entry_at s'.ram p i)

  abbrev after : Vmm
  after = record s {
    ram = store64 s.ram (p + 8 * i) (bit_or (bit_and logical page_addr_mask) flags);
  }

  entry_self : entry_at after.ram p i ≡ frame logical + 7
  entry_self = entry-set_self s.ram p i _ (omega (arith, entry-flags logical)) ∙ entry-flags logical

  -- An entry of the tables afterwards is the new one, or an old one unchanged.
  abbrev Now : (q k w j : ℕ) → Type 0
  Now q k w j =
      (p ≡ q) × (i ≡ j) × (0 ≡ k) × (v ≡ w) × (entry_at after.ram q j ≡ frame logical + 7)
      ⊎ (p + 8 * i ≢ q + 8 * j) × (entry_at after.ram q j ≡ entry_at s.ram q j)

  entry-Now : (q k w j : ℕ) → o q ≡ some (k, w) → j < 512 → Now q k w j
  entry-Now q k w j h b = elim (ℕ_discrete (p + 8 * i) (q + 8 * j)) [
    | yes eq ↦
        let same : (p ≡ q) × (i ≡ j) =
          omega (arith, inv.aligned p 0 v table, inv.aligned q k w h) in
        let pq = same.0 in
        inl (
          pq,
          same.1,
          ground (arith, table),
          ground (arith, table),
          ap (load64 after.ram) (sym eq) ∙ entry_self,
        )
    | no ne ↦
        inr (
          ne,
          entry-set_ne s.ram p q i j _ (inv.aligned p 0 v table) (inv.aligned q k w h) slot b ne,
        )
  ]

  leaf-Extends : entry_at s.ram p i % 2 ≡ 0 → Extends s o after o
  leaf-Extends absent = record {
    keeps = λ q k w h. h;
    keeps_entry = λ q k w j h b e. elim (entry-Now q k w j h b) [
      | inl (pq, ij, zk, vw, new) ↦ absurd (ground (arith, absent))
      | inr (ne, old) ↦ old
    ];
    fewer = omega arith;
  }

  leaf-IsTables : IsTables pml4 after o
  leaf-IsTables = record {
    root = inv.root;
    aligned = inv.aligned;
    low = inv.low;
    outside = inv.outside;
    child = λ q k w j h b e. elim (entry-Now q (suc k) w j h b) [
      | inl (pq, ij, zk, vw, new) ↦ absurd (omega arith)
      | inr (ne, old) ↦ rw old (inv.child q k w j h b (rw old at e))
    ];
    leaf = λ q w j h b e. elim (entry-Now q 0 w j h b) [
      | inl (pq, ij, zk, vw, new) ↦ omega (arith, here)
      | inr (ne, old) ↦ rw old (inv.leaf q w j h b (rw old at e))
    ];
    pool_aligned = inv.pool_aligned;
    pool_pos = inv.pool_pos;
    pool_low = inv.pool_low;
  }

  pub set_leaf-Maps : Maps pml4 s o Entered (set_leaf logical (p + 8 * i) s)
  unfolding set_leaf
  set_leaf-Maps = elim (Bool-cases (is_absent s.ram (p + 8 * i))) [
    | inl absent ↦ rw absent (
        mapped after o leaf-IsTables (leaf-Extends (is_absent-true s.ram (p + 8 * i) absent))
          (omega (arith, entry_self)))
    | inr there ↦
        rw there (mapped s o inv (Extends-refl s o) (is_absent-false s.ram (p + 8 * i) there))
  ]
