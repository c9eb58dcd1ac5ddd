-- ===== src/Proc/Tss/Tests.antt =====
-- Instances of the TSS theorems.
use kess_os.Base.{ℕ, ◌+◌, ◌^◌, ◌<◌, ◌≡◌, arith}
use kess_os.Arch.Vmm.{Vmm, alloc_page}
use kess_os.Proc.Tss.{Tss, TssEntry, TssDesc, init_tss}
use kess_os.Proc.Tss.Laws.{base_address, stack_pointer, init_tss-fields}

-- A pool of so many pages from 0x100000.
abbrev pool : ℕ → Vmm
pool n = record {
  ram = λ _. 0;
  placement = 0x100000;
  biggest_segment = record { type = 7; phys_addr = 0x100000; virt_addr = 0; n_pages = n; attr = 0 };
}

abbrev blank_entry : TssEntry
blank_entry = record {
  reserved1 = 0;
  rsp0_low = 0;
  rsp0_high = 0;
  rsp1_low = 0;
  rsp1_high = 0;
  rsp2_low = 0;
  rsp2_high = 0;
  reserved2 = 0;
  ist1_low = 0;
  ist1_high = 0;
  ist2_low = 0;
  ist2_high = 0;
  ist3_low = 0;
  ist3_high = 0;
  ist4_low = 0;
  ist4_high = 0;
  ist5_low = 0;
  ist5_high = 0;
  ist6_low = 0;
  ist6_high = 0;
  ist7_low = 0;
  ist7_high = 0;
  reserved3 = 0;
  reserved4 = 0;
  io_thing = 0;
}

abbrev blank_desc : TssDesc
blank_desc = record {
  seglimit = 0;
  base_addr_low = 0;
  base_addr_middle = 0;
  type = 0;
  zero_bit = 0;
  dpl = 0;
  p = 0;
  seg_limit_upper = 0;
  avl = 0;
  unused = 0;
  g = 0;
  base_addr_other_middle = 0;
  base_addr_upper = 0;
  reserved = 0;
}

abbrev blank_tss : Tss
blank_tss = record { entry = blank_entry; desc = blank_desc }

first_page : (alloc_page (pool 4)).0 < 2 ^ 63
unfolding alloc_page
first_page = omega arith

init_tss-fields_example :
    let t = (init_tss 0xFFFF800000123456 (pool 4) blank_tss).0 in
    (base_address t.desc ≡ 0xFFFF800000123456)
    × (t.desc.p ≡ 1)
    × (t.desc.type ≡ 9)
    × (t.desc.zero_bit ≡ 0)
    × (t.desc.dpl ≡ 0)
    × (stack_pointer t.entry ≡ (alloc_page (pool 4)).0 + 4080)
    × ((init_tss 0xFFFF800000123456 (pool 4) blank_tss).1 ≡ (alloc_page (pool 4)).1)
init_tss-fields_example =
    init_tss-fields 0xFFFF800000123456 (pool 4) blank_tss (omega arith) first_page
