-- ===== src/Proc/Tss.antt =====
-- kernel/src/proc/TSS.h and impl/TSS.c. `tss_entry` is the address that the linker gives the
-- static TSS; the descriptor is the one in the GDT that `GDT_TSS` points to. The load of the task
-- register is assembly.
pub mod Laws
mod Tests
use kess_os.Base.{ℕ, ◌+◌, ◌*◌, bit_and, u16, u64, ◌>>>◌}
use kess_os.Arch.Vmm.{Vmm, alloc_page}

pub record TssEntry : Type 0 where
  pub reserved1 : ℕ
  pub rsp0_low : ℕ
  pub rsp0_high : ℕ
  pub rsp1_low : ℕ
  pub rsp1_high : ℕ
  pub rsp2_low : ℕ
  pub rsp2_high : ℕ
  pub reserved2 : ℕ
  pub ist1_low : ℕ
  pub ist1_high : ℕ
  pub ist2_low : ℕ
  pub ist2_high : ℕ
  pub ist3_low : ℕ
  pub ist3_high : ℕ
  pub ist4_low : ℕ
  pub ist4_high : ℕ
  pub ist5_low : ℕ
  pub ist5_high : ℕ
  pub ist6_low : ℕ
  pub ist6_high : ℕ
  pub ist7_low : ℕ
  pub ist7_high : ℕ
  pub reserved3 : ℕ
  pub reserved4 : ℕ
  pub io_thing : ℕ

pub record TssDesc : Type 0 where
  pub seglimit : ℕ
  pub base_addr_low : ℕ
  pub base_addr_middle : ℕ
  pub type : ℕ
  pub zero_bit : ℕ
  pub dpl : ℕ
  pub p : ℕ
  pub seg_limit_upper : ℕ
  pub avl : ℕ
  pub unused : ℕ
  pub g : ℕ
  pub base_addr_other_middle : ℕ
  pub base_addr_upper : ℕ
  pub reserved : ℕ

-- `sizeof(tss_entry_t)`: it is not packed, so the `uint64_t` at 28 moves to 32.
abbrev pub tss_entry_size : ℕ
tss_entry_size = 4 + 6 * 4 + 4 + 8 + 14 * 4 + 8 + 2 + 2 + 4

pub record Tss : Type 0 where
  pub entry : TssEntry
  pub desc : TssDesc

unfoldable pub init_tss : (tss_entry : ℕ) → Vmm → Tss → Tss × Vmm
init_tss tss_entry v s =
    let r = alloc_page v in
    let stack = u64 (r.0 + 4080) in
    (
      record {
        entry = record (s.entry) {
          rsp0_low = bit_and stack 0xFFFFFFFF;
          rsp0_high = bit_and stack 0xFFFFFFFF00000000 >>> 32;
        };
        desc = record (s.desc) {
          base_addr_low = bit_and tss_entry 0xFFFF;
          base_addr_middle = bit_and tss_entry 0xFF0000 >>> 16;
          base_addr_other_middle = bit_and tss_entry 0xFF000000 >>> 24;
          base_addr_upper = bit_and tss_entry 0xFFFFFFFF00000000 >>> 32;
          p = 0x1;
          type = 0x9;
          zero_bit = 0x00;
          dpl = 0;
          seglimit = u16 tss_entry_size;
          g = 0x1;
        };
      },
      r.1,
    )
