-- ===== src/Kernel/Sample.antt =====
-- A machine before it starts, for the tests.
use kess_os.Base.{none, inl, ltb, ◌-◌, ◌||◌}
use kess_os.Arch.Vmm.{bigger, biggest_loop}
use kess_os.Kernel.Start.Laws.{HasMap}
use kess_os.Base.{ℕ, ◌+◌, ◌*◌, ◌/◌, ◌%◌, ◌^◌, ◌≡◌, ◌==◌, if◌then◌else◌, ◌∷◌, refl, arith}
use kess_os.Ram.{Ram, load}
use kess_os.Arch.Io.{pure, Device, Trace, out32}
use kess_os.Drivers.Video.Sample.{screen}
use kess_os.Drivers.Pci.Fields.{Config, IsHostBridge}
use kess_os.Kernel.Start.Steps.{IsMasked}
use kess_os.Arch.Pic.Chip.{Chip, ready, master}
use kess_os.Arch.MemoryMap.{
  Meminfo, get_mmap_entries, mmap_iterator_helper, read_memdesc, mem_type_code,
}
use kess_os.Interrupts.Idt.{empty_idt}
use kess_os.Proc.Thread.{no_threads}
use kess_os.Kernel.Start.{Image, Machine}

abbrev pub linked : Image
linked = record {
  div0_handler = 0x101000;
  debug_exception = 0x101100;
  overflow_exception = 0x101200;
  bre_exception = 0x101300;
  invalid_opcode_exception = 0x101400;
  dev_not_avail_exception = 0x101500;
  double_fault = 0x101600;
  invalid_tss_exception = 0x101700;
  snp_exception = 0x101800;
  stackseg_fault = 0x101900;
  gpf = 0x101A00;
  page_fault = 0x101B00;
  irq0_handler = 0x101C00;
  irq1_handler = 0x101D00;
  syscall_gate = 0x101E00;
  idt = 0x102000;
  tss_entry = 0x103000;
  pml4 = 0x104000;
  facp = 0x105000;
  dec_buf = 0x105100;
  hex_buf = 0x105200;
  behind_syscalls = λ rax s. pure s;
}

abbrev pub fresh : Chip
fresh = record { stage = ready; offset = 8; cascade = 4; mode = 1; mask = 0xB8; acks = 0 }

-- The root pointer at 0x9000, the RSDT at 0xA000 with the table 0xB000, which is a FADT, and the
-- kernel's literal "FACP".
abbrev pub acpi_tables : Ram
acpi_tables x =
    if x == 0x9011
    then 0xA0
    else if x == 0xA004
    then 40
    else if x == 0xA025
    then 0xB0
    else if x == 0xB004
    then 10
    else if x == 0xB009
    then 220
    else if (x == 0xB000) || (x == 0x105000)
    then b'F'
    else if (x == 0xB001) || (x == 0x105001)
    then b'A'
    else if (x == 0xB002) || (x == 0x105002)
    then b'C'
    else if (x == 0xB003) || (x == 0x105003)
    then b'P'
    else 0

-- A byte of a descriptor of 4096 pages from 0x200000 on that can be used, and zeros behind it.
abbrev pub descriptor_byte : (offset : ℕ) → ℕ
descriptor_byte offset =
    if offset == 0 then 7 else if offset == 10 then 0x20 else if offset == 25 then 0x10 else 0

abbrev pub memory : Ram
memory x =
    if ltb x 0x8000 then 0 else if ltb x 0x8060 then descriptor_byte (x - 0x8000) else acpi_tables x

abbrev pub machine : Machine
machine = record {
  canvas = screen;
  legacy_mode_enabled = 0;
  vmm = record {
    ram = memory;
    placement = 0xE646000;
    biggest_segment = record { type = 0; phys_addr = 0; virt_addr = 0; n_pages = 0; attr = 0 };
  };
  tss = record {
    entry = record {
      reserved1 = 0;
      rsp0_low = 0;
      rsp0_high = 0;
      rsp1_low = 0;
      rsp1_high = 0;
      rsp2_low = 0;
      rsp2_high = 0;
      reserved2 = 0;
      ist1_low = 0;
      ist1_high = 0;
      ist2_low = 0;
      ist2_high = 0;
      ist3_low = 0;
      ist3_high = 0;
      ist4_low = 0;
      ist4_high = 0;
      ist5_low = 0;
      ist5_high = 0;
      ist6_low = 0;
      ist6_high = 0;
      ist7_low = 0;
      ist7_high = 0;
      reserved3 = 0;
      reserved4 = 0;
      io_thing = 0;
    };
    desc = record {
      seglimit = 0;
      base_addr_low = 0;
      base_addr_middle = 0;
      type = 0;
      zero_bit = 0;
      dpl = 0;
      p = 0;
      seg_limit_upper = 0;
      avl = 0;
      unused = 0;
      g = 0;
      base_addr_other_middle = 0;
      base_addr_upper = 0;
      reserved = 0;
    };
  };
  idt = empty_idt;
  timer = record { ticks = 0; threads = no_threads };
  acpi = none;
}

abbrev pub info : Meminfo
info = record { m_map = 0x8000; m_size = 96; m_descriptor_size = 48 }

-- Its chips answer with their masks, and every PCI function is an AHCI controller.
abbrev pub space : Config
space bus slot func reg = if reg == 0 then 0x29228086 else 0x01060102

abbrev selected : Trace → ℕ
selected (out32 p v ∷ t) = v % 256 / 4
selected _ = 0

abbrev pub board : Device
board t port =
    if port == 0x21
    then (master fresh t).mask
    else if port == 0xCFC
    then space 0 0 0 (selected t)
    else 0

pub board-IsMasked : IsMasked board fresh
board-IsMasked t = refl

pub board-IsHostBridge : IsHostBridge board space
board-IsHostBridge = record {
  word32 = λ b s f r. ground arith;
  answers = λ t bus slot func reg hb hs hf hr.
      let e : (2 ^ 31 + bus * 2 ^ 16 + slot * 2 ^ 11 + func * 2 ^ 8 + reg * 4) % 256 / 4 ≡ reg =
        omega arith in
      rw e refl;
}

-- The memory map has two descriptors, and the first is the pool.
pub info-HasMap : HasMap linked.pml4 5000 info 0x80000000 memory
unfolding get_mmap_entries mmap_iterator_helper biggest_loop bigger read_memdesc mem_type_code load
info-HasMap = record {
  entries = 2;
  counted = refl;
  inside = λ i h. omega arith;
  pool = λ b. record {
    aligned = refl;
    not_first = omega arith;
    low = omega arith;
    pml4_aligned = refl;
    pml4_low = omega arith;
    apart = inl (omega arith);
  };
  enough = λ b. omega arith;
}
