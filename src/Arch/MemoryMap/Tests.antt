-- ===== src/Arch/MemoryMap/Tests.antt =====
-- Runs and instances of the memory map.
use kess_os.Base.{◌≡◌, refl, some, ◌==◌, if◌then◌else◌, arith}
use kess_os.Ram.{Ram}
use kess_os.Arch.MemoryMap.{get_mmap_entries, get_mem_size}
use kess_os.Arch.MemoryMap.Laws.{get_mem_size-skips_first}

entries_run :
    get_mmap_entries (record { m_map = 0x1000; m_size = 480; m_descriptor_size = 48 }) ≡ some 10
unfolding get_mmap_entries
entries_run = refl

abbrev empty_map : Ram
empty_map x = 0

-- Five pages in the first descriptor.
abbrev five_pages : Ram
five_pages x = if x == 0x1018 then 5 else 0

get_mem_size-skips_first_example :
    get_mem_size empty_map 0x1000 3 48 ≡ get_mem_size five_pages 0x1000 3 48
get_mem_size-skips_first_example =
    get_mem_size-skips_first empty_map five_pages 0x1000 48 3 (λ x h. ground arith)
