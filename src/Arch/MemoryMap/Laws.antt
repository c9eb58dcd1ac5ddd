-- ===== src/Arch/MemoryMap/Laws.antt =====
-- What `getMemSize` reads.
use kess_os.Base.{ℕ, zero, suc, ◌+◌, ◌≤◌, ◌≡◌, refl, arith}
use kess_os.Ram.{Ram}
use kess_os.Ram.Laws.{load-cong}
use kess_os.Arch.MemoryMap.{mem_size_loop, get_mem_size}

module _ (m m' : Ram) (m_map m_desc_size : ℕ) where
  abbrev Agree : Type 0
  Agree = (x : ℕ) → m_map + m_desc_size + 24 ≤ x → m x ≡ m' x

  mem_size_loop-cong :
      (left entry acc : ℕ)
      → Agree
      → mem_size_loop m m_map m_desc_size left entry acc
        ≡ mem_size_loop m' m_map m_desc_size left entry acc
  unfolding mem_size_loop
  mem_size_loop-cong zero entry acc h = refl
  mem_size_loop-cong (suc left) entry acc h =
      rw (load-cong 8 m m' (m_map + (entry + m_desc_size) + 24) (λ x p q. h x (omega arith)))
        (mem_size_loop-cong left (entry + 1) _ h)

  -- `getMemSize` never reads the first descriptor of the map: memories that agree from the page
  -- count of the second descriptor on give the same size, whatever the first one holds.
  pub get_mem_size-skips_first :
      (m_entry_count : ℕ)
      → ((x : ℕ) → m_map + m_desc_size + 24 ≤ x → m x ≡ m' x)
      → get_mem_size m m_map m_entry_count m_desc_size
        ≡ get_mem_size m' m_map m_entry_count m_desc_size
  unfolding get_mem_size
  get_mem_size-skips_first count h = mem_size_loop-cong count 0 0 h
