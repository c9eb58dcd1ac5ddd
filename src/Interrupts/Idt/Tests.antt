-- ===== src/Interrupts/Idt/Tests.antt =====
-- An instance of the gate theorem.
use kess_os.Base.{ℕ, ◌≡◌, ◌≢◌, some, length, get_elem?, refl, arith}
use kess_os.Interrupts.Idt.{IdtVector, empty_idt, set_idt_vec, trap_gate_flags}
use kess_os.Interrupts.Idt.Laws.{entry_point, set_idt_vec-gate}

set_idt_vec-gate_example :
    ((g : IdtVector) × (get_elem?
          (set_idt_vec 0x80 0xFFFF800000123456 trap_gate_flags empty_idt).idt
          0x80
        ≡ some g)
      × (entry_point g ≡ 0xFFFF800000123456)
      × (g.attr ≡ trap_gate_flags)
      × (g.kernel_cs ≡ 0x08)
      × (g.ist ≡ 0))
    × ((j : ℕ)
        → 0x80 ≢ j
        → get_elem? (set_idt_vec 0x80 0xFFFF800000123456 trap_gate_flags empty_idt).idt j
          ≡ get_elem? (empty_idt.idt) j)
    × (length (set_idt_vec 0x80 0xFFFF800000123456 trap_gate_flags empty_idt).idt ≡ 256)
set_idt_vec-gate_example =
    set_idt_vec-gate 0x80 0xFFFF800000123456 trap_gate_flags empty_idt (omega arith) (omega arith)
      (omega arith) refl
