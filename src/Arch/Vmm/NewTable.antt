-- ===== src/Arch/Vmm/NewTable.antt =====
-- Taking a page from the pool for a table keeps the invariant.
use kess_os.Base.{ℕ, suc, ◌+◌, ◌-◌, ◌*◌, ◌%◌, ◌≤◌, ◌<◌, ◌≡◌, ◌≢◌, ◌⊎◌, inl, inr, ◌∙◌, ap, sym, refl}
use kess_os.Base.{arith, some, bit_and, bit_or, ℕ_discrete, u64}
use kess_os.Ram.{load64, store64}
use kess_os.Util.Bytes.{memzero}
use kess_os.Arch.Vmm.{Vmm, page_addr_mask, flags}
use kess_os.Arch.Vmm.Entry.{
  frame, IsPresent, entry_at, entry-flags, entry-set_self, entry-set_ne, entry-memzero_self,
  entry-memzero_ne,
}
use kess_os.Arch.Vmm.Invariant.{Owner, assign, pages_left, IsTables, Extends}

-- The state in which `add_table` calls `map_page`, the page cleared at its own address.
abbrev pub with_table : Vmm → (entry : ℕ) → Vmm
with_table s entry = record s {
  ram =
      store64 (memzero s.ram s.placement 4096) entry
        (bit_or (bit_and s.placement page_addr_mask) flags);
  placement = u64 (s.placement + 4096);
  biggest_segment = record (s.biggest_segment) { n_pages = s.biggest_segment.n_pages - 1 };
}

module _ {pml4 : ℕ} {s : Vmm} {o : Owner} (inv : IsTables pml4 s o) (p l v i : ℕ)
    (table : o p ≡ some (suc l, v)) (slot : i < 512) (absent : entry_at s.ram p i % 2 ≡ 0)
    (room : 0 < pages_left s) where
  abbrev pub page : ℕ
  page = s.placement

  abbrev pub after : Vmm
  after = with_table s (p + 8 * i)

  abbrev pub owner : Owner
  owner = assign o page (l, v * 512 + i)

  page-fresh : (q k w : ℕ) → o q ≡ some (k, w) → page ≢ q
  page-fresh q k w h = ground (arith, inv.outside q k w h)

  pub entry_self : entry_at after.ram p i ≡ page + 7
  entry_self =
      entry-set_self (memzero s.ram page 4096) p i _ (omega (arith, entry-flags page, inv.pool_low))
      ∙ omega (arith, entry-flags page, inv.pool_low, inv.pool_aligned)

  entry-page : (j : ℕ) → j < 512 → entry_at after.ram page j ≡ 0
  entry-page j h =
      entry-set_ne (memzero s.ram page 4096) p page i j _ (inv.aligned p (suc l) v table)
        inv.pool_aligned slot h
        (λ e.
          page-fresh p (suc l) v table
            (omega (arith, inv.aligned p (suc l) v table, inv.pool_aligned)))
      ∙ entry-memzero_self s.ram page j h

  entry-old :
      (q k w j : ℕ)
      → o q ≡ some (k, w)
      → j < 512
      → p + 8 * i ≢ q + 8 * j
      → entry_at after.ram q j ≡ entry_at s.ram q j
  entry-old q k w j h b ne =
      entry-set_ne (memzero s.ram page 4096) p q i j _ (inv.aligned p (suc l) v table)
        (inv.aligned q k w h) slot b ne
      ∙ entry-memzero_ne s.ram q page j (inv.aligned q k w h) inv.pool_aligned b
          (λ e. page-fresh q k w h (sym e))

  -- Two entries at one address are one entry.
  same_slot :
      (q k w j : ℕ) → o q ≡ some (k, w) → j < 512 → p + 8 * i ≡ q + 8 * j → (p ≡ q) × (i ≡ j)
  same_slot q k w j h b e = omega (arith, inv.aligned p (suc l) v table, inv.aligned q k w h)

  pub owner-page : owner page ≡ some (l, v * 512 + i)
  owner-page = ground arith

  owner-old : (q k w : ℕ) → o q ≡ some (k, w) → owner q ≡ some (k, w)
  owner-old q k w h = ground (arith, page-fresh q k w h)

  pub new-Extends : Extends s o after owner
  new-Extends = record {
    keeps = owner-old;
    keeps_entry = λ q k w j h b e. elim (ℕ_discrete (p + 8 * i) (q + 8 * j)) [
      | yes eq ↦ absurd (ground arith)
      | no ne ↦ entry-old q k w j h b ne
    ];
    fewer = omega arith;
  }

  frame-page : frame (page + 7) ≡ page
  frame-page = omega (arith, inv.pool_low, inv.pool_aligned)

  owner-cases :
      (q k w : ℕ)
      → owner q ≡ some (k, w)
      → ((page ≡ q) × (k ≡ l) × (w ≡ v * 512 + i)) ⊎ (o q ≡ some (k, w))
  owner-cases q k w h = ground arith

  new-outside :
      (q k w : ℕ)
      → owner q ≡ some (k, w)
      → (q + 4096 ≤ after.placement) ⊎ (after.placement + pages_left after * 4096 ≤ q)
  new-outside q k w h = ground (arith, owner-cases q k w h, inv.outside q k w, inv.pool_low)

  -- A present entry of the new tables is the new one, or an old one unchanged.
  abbrev Present : (q k w j : ℕ) → Type 0
  Present q k w j =
      (p ≡ q) × (i ≡ j) × (suc l ≡ k) × (v ≡ w) × (entry_at after.ram q j ≡ page + 7)
      ⊎ (o q ≡ some (k, w)) × (entry_at after.ram q j ≡ entry_at s.ram q j)

  old-Present : (q k w j : ℕ) → o q ≡ some (k, w) → j < 512 → Present q k w j
  old-Present q k w j h b = elim (ℕ_discrete (p + 8 * i) (q + 8 * j)) [
    | yes eq ↦
        let (pq, ij) = same_slot q k w j h b eq in
        inl (
          pq,
          ij,
          ground (arith, table),
          ground (arith, table),
          ap (load64 after.ram) (sym eq) ∙ entry_self,
        )
    | no ne ↦ inr (h, entry-old q k w j h b ne)
  ]

  entry-Present :
      (q k w j : ℕ)
      → owner q ≡ some (k, w)
      → j < 512
      → IsPresent (entry_at after.ram q j)
      → Present q k w j
  entry-Present q k w j h b e = elim (owner-cases q k w h) [
    | inl new ↦ absurd (ground (arith, entry-page j b))
    | inr old ↦ old-Present q k w j old b
  ]

  new-child :
      (q k w j : ℕ)
      → owner q ≡ some (suc k, w)
      → j < 512
      → IsPresent (entry_at after.ram q j)
      → owner (frame (entry_at after.ram q j)) ≡ some (k, w * 512 + j)
  new-child q k w j h b e = elim (entry-Present q (suc k) w j h b e) [
    | inl (pq, ij, lk, vw, new) ↦
        rw (new, frame-page)
          (let deep : l ≡ k = omega arith in owner-page ∙ ap some (rw (deep, vw, ij) refl))
    | inr (old, same) ↦ rw same (owner-old _ _ _ (inv.child q k w j old b (rw same at e)))
  ]

  new-leaf :
      (q w j : ℕ)
      → owner q ≡ some (0, w)
      → j < 512
      → IsPresent (entry_at after.ram q j)
      → frame (entry_at after.ram q j) ≡ (w * 512 + j) * 4096
  new-leaf q w j h b e = elim (entry-Present q 0 w j h b e) [
    | inl (pq, ij, lk, vw, new) ↦ absurd (omega arith)
    | inr (old, same) ↦ rw same (inv.leaf q w j old b (rw same at e))
  ]

  pub new-IsTables : IsTables pml4 after owner
  new-IsTables = record {
    root = owner-old pml4 3 0 inv.root;
    aligned = λ q k w h. ground (arith, owner-cases q k w h, inv.aligned q k w, inv.pool_aligned);
    low = λ q k w h. ground (arith, owner-cases q k w h, inv.low q k w, inv.pool_low);
    outside = new-outside;
    child = new-child;
    leaf = λ q w j h b e. new-leaf q w j h b e;
    pool_aligned = omega (arith, inv.pool_aligned, inv.pool_low);
    pool_pos = omega (arith, inv.pool_low);
    pool_low = omega (arith, inv.pool_low);
  }
