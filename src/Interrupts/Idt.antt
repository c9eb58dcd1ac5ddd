-- ===== src/Interrupts/Idt.antt =====
-- kernel/src/interrupts/IDT.h and impl/IDT.c. `idt` is the address that the linker gives the
-- static table.
pub mod Laws
mod Tests
use kess_os.Base.{ℕ, List, ◌+◌, ◌-◌, ◌*◌, bit_and, u8, u16, set, replicate, ◌>>>◌}

abbrev pub trap_gate_flags : ℕ
trap_gate_flags = 0x8F

abbrev pub int_gate_flags : ℕ
int_gate_flags = 0x8E

abbrev pub idt_int_gate_user : ℕ
idt_int_gate_user = 0xEE

pub record IdtVector : Type 0 where
  pub isr_low16 : ℕ
  pub kernel_cs : ℕ
  pub ist : ℕ
  pub attr : ℕ
  pub isr_mid16 : ℕ
  pub isr_high32 : ℕ
  pub reserved : ℕ

pub record Idtr : Type 0 where
  pub limit : ℕ
  pub base : ℕ

-- What the processor pushes for a handler.
pub record InterruptFrame : Type 0 where
  pub rip : ℕ
  pub cs : ℕ
  pub rflags : ℕ
  pub rsp : ℕ
  pub ss : ℕ

-- The statics of the file.
pub record Idt : Type 0 where
  pub idt : List IdtVector
  pub idtr : Idtr

-- `sizeof(struct IDTVector)`, which is packed.
abbrev pub idt_vector_size : ℕ
idt_vector_size = 2 + 2 + 1 + 1 + 2 + 4 + 4

abbrev pub empty_vector : IdtVector
empty_vector = record {
  isr_low16 = 0;
  kernel_cs = 0;
  ist = 0;
  attr = 0;
  isr_mid16 = 0;
  isr_high32 = 0;
  reserved = 0;
}

abbrev pub empty_idt : Idt
empty_idt = record { idt = replicate 256 empty_vector; idtr = record { limit = 0; base = 0 } }

unfoldable pub gate : (addr flags : ℕ) → IdtVector
gate addr flags = record {
  isr_low16 = bit_and addr 0xFFFF;
  kernel_cs = 0x08;
  ist = 0x0;
  attr = u8 flags;
  isr_mid16 = bit_and (addr >>> 16) 0xFFFF;
  isr_high32 = bit_and (addr >>> 32) 0xFFFFFFFF;
  reserved = 0x0;
}

unfoldable pub set_idt_vec : (vec isr flags : ℕ) → Idt → Idt
set_idt_vec vec isr flags s = record s { idt = set s.idt (u8 vec) (gate isr flags) }

-- Up to the instruction `lidt`, which takes `idtr`.
unfoldable pub idt_install : (idt : ℕ) → Idt → Idt
idt_install idt s = record s {
  idtr = record { limit = u16 (idt_vector_size * 256 - 1); base = idt };
}
