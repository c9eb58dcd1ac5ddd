-- ===== src/Boot/Rsdp/Laws.antt =====
-- What the search returns.
use kess_os.Base.{
  ℕ, zero, suc, ◌+◌, ◌<◌, ◌≡◌, ◌⊎◌, inl, inr, refl, arith, ◌==◌, ◌&&◌, not, ◌≢◌, Bool-cases,
}
use kess_os.Ram.{Ram}
use kess_os.Boot.Elf.{memcmp}
use kess_os.Boot.Rsdp.{rsdp_loop, rsdp_search}

module _ (compare_guid : ℕ → ℕ) (vendor_table : ℕ → ℕ) (magic : ℕ) (m : Ram) where
  -- Entry `i` gives the result `r`.
  pub record Hit (n r i : ℕ) : Type 0 where
    pub bound : i < n
    pub guid : compare_guid (i + i) ≢ 0
    pub signature : memcmp m magic (vendor_table i) 8 ≡ 0
    pub table : r ≡ vendor_table i

  rsdp_loop-Hit :
      (left i n rsdp : ℕ)
      → i + left ≡ n
      → (rsdp ≡ 0) ⊎ ((k : ℕ) × Hit n rsdp k)
      → (rsdp_loop compare_guid vendor_table magic m left i rsdp ≡ 0)
        ⊎ ((k : ℕ) × Hit n (rsdp_loop compare_guid vendor_table magic m left i rsdp) k)
  unfolding rsdp_loop
  rsdp_loop-Hit zero i n rsdp e so_far = so_far
  rsdp_loop-Hit (suc left) i n rsdp e so_far =
      elim (Bool-cases
        (not (compare_guid (i + i) == 0) && memcmp m magic (vendor_table i) 8 == 0)) [
          | inl hit ↦ rw hit (
              rsdp_loop-Hit left (i + 1) n (vendor_table i) (omega arith) (
                inr (
                  i,
                  record {
                    bound = omega arith;
                    guid = ground arith;
                    signature = ground arith;
                    table = refl;
                  },
                )))
          | inr miss ↦ rw miss (rsdp_loop-Hit left (i + 1) n rsdp (omega arith) so_far)
        ]

  pub rsdp_search-Hit :
      (n : ℕ)
      → (rsdp_search compare_guid vendor_table magic m n ≡ 0)
        ⊎ ((k : ℕ) × Hit n (rsdp_search compare_guid vendor_table magic m n) k)
  unfolding rsdp_search
  rsdp_search-Hit n = rsdp_loop-Hit n 0 n 0 (omega arith) (inl refl)
