-- ===== src/Arch/Vmm/Tests.antt =====
-- A machine with 64 MB of usable memory at 1 MB, and instances of the paging theorems.
use kess_os.Base.{ℕ, ◌+◌, ◌*◌, ◌^◌, ◌≤◌, ◌<◌, ◌≡◌, ◌⊎◌, inl, refl, arith, some, ◌==◌, if◌then◌else◌}
use kess_os.Ram.{Ram, load}
use kess_os.Arch.MemoryMap.{
  Memdesc, Meminfo, get_mmap_entries, read_memdesc, mmap_iterator_helper, mem_type_code,
}
use kess_os.Arch.Vmm.Pages.{IsBiggest, allocated, set_placement-alloc_page}
use kess_os.Arch.Vmm.{
  set_placement, alloc_page, Vmm, done, null_table, map_page, init_vmm, bigger, biggest_loop,
}
use kess_os.Arch.Vmm.Entry.{translate}
use kess_os.Arch.Vmm.Invariant.{Owner, IsTables, Extends}
use kess_os.Arch.Vmm.MapPage.{map_page-translates}
use kess_os.Arch.Vmm.Init.{
  IsPool, Identity, segment, init_vmm-Identity, only_root, cleared, cleared-IsTables,
}

-- Two descriptors of 48 bytes at 0x8000, the second of them usable.
abbrev loaded : Ram
loaded x = if x == 0x8030 then 7 else if x == 0x803A then 0x10 else if x == 0x8049 then 0x40 else 0

abbrev no_memory : Vmm
no_memory = record {
  ram = loaded;
  placement = 0;
  biggest_segment = record { type = 0; phys_addr = 0; virt_addr = 0; n_pages = 0; attr = 0 };
}

abbrev info : Meminfo
info = record { m_map = 0x8000; m_size = 96; m_descriptor_size = 48 }

abbrev usable : Memdesc
usable = record { type = 7; phys_addr = 0x100000; virt_addr = 0; n_pages = 0x4000; attr = 0 }

two_entries : get_mmap_entries info ≡ some 2
unfolding get_mmap_entries
two_entries = refl

found : segment info no_memory 2 ≡ usable
unfolding biggest_loop bigger read_memdesc mmap_iterator_helper mem_type_code load
found = refl

usable-IsPool : IsPool 0x5000 usable
usable-IsPool = record {
  aligned = refl;
  not_first = omega arith;
  low = omega arith;
  pml4_aligned = refl;
  pml4_low = omega arith;
  apart = inl (omega arith);
}

found-IsPool : IsPool 0x5000 (segment info no_memory 2)
found-IsPool = rw found usable-IsPool

found_fuel : (segment info no_memory 2).n_pages < 0x4001
found_fuel = rw found (omega arith)

init_vmm-Identity_example : Identity 0x5000 (init_vmm 0x5000 0x4001 info no_memory)
init_vmm-Identity_example =
    init_vmm-Identity 0x5000 0x4001 info no_memory 2 two_entries found-IsPool found_fuel

abbrev ready : Vmm
ready = cleared usable-IsPool no_memory

map_page-translates_example :
    (map_page 0x5000 0x4001 0xB8000 ready ≡ null_table)
    ⊎ ((s' : Vmm) × (o' : Owner) × (map_page 0x5000 0x4001 0xB8000 ready ≡ done s')
        × IsTables 0x5000 s' o'
        × Extends ready (only_root 0x5000) s' o'
        × (translate s'.ram 0x5000 0xB8000 ≡ some 0xB8000))
map_page-translates_example =
    map_page-translates 0x5000 0x4001 0xB8000 ready (only_root 0x5000)
      (cleared-IsTables usable-IsPool no_memory) (omega arith) (omega arith)

found_fits :
    (segment info no_memory 2).phys_addr + (segment info no_memory 2).n_pages * 4096 < 2 ^ 64
found_fits = rw found (omega arith)

set_placement-alloc_page_example :
    (s' : Vmm) × (set_placement info no_memory ≡ done s')
    × IsBiggest loaded info 2 (segment info no_memory 2)
    × ((k : ℕ)
        → (k < (segment info no_memory 2).n_pages
            → (alloc_page (allocated k s')).0 ≡ (segment info no_memory 2).phys_addr + k * 4096)
          × ((segment info no_memory 2).n_pages ≤ k → (alloc_page (allocated k s')).0 ≡ 0))
set_placement-alloc_page_example = set_placement-alloc_page info no_memory 2 two_entries found_fits
