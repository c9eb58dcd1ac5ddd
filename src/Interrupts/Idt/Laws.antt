-- ===== src/Interrupts/Idt/Laws.antt =====
-- What the processor reads from the table.
use kess_os.Base.{ℕ, ◌+◌, ◌*◌, ◌%◌, ◌/◌, ◌^◌, ◌<◌, ◌≡◌, ◌≢◌, bit_and_mask, refl, arith, some, ◌∙◌}
use kess_os.Base.{length, get_elem?, length-set, get_elem?-set_self, get_elem?-set_ne}
use kess_os.Interrupts.Idt.{IdtVector, Idt, gate, set_idt_vec}

-- The entry point that the processor puts together from the three parts of a gate.
abbrev pub entry_point : IdtVector → ℕ
entry_point g = g.isr_low16 + g.isr_mid16 * 2 ^ 16 + g.isr_high32 * 2 ^ 32

gate-entry_point : (addr flags : ℕ) → addr < 2 ^ 64 → entry_point (gate addr flags) ≡ addr
unfolding gate
gate-entry_point addr flags h =
    omega (
      arith,
      bit_and_mask 16 addr,
      bit_and_mask 16 (addr / 2 ^ 16),
      bit_and_mask 32 (addr / 2 ^ 32),
    )

-- `set_idt_vec` gives its vector a gate in the kernel's code segment with the type asked for, from
-- which the processor gets the whole 64-bit handler address, and changes no other vector.
pub set_idt_vec-gate :
    (vec isr flags : ℕ) (s : Idt)
    → vec < 256
    → isr < 2 ^ 64
    → flags < 256
    → length s.idt ≡ 256
    → ((g : IdtVector) × (get_elem? (set_idt_vec vec isr flags s).idt vec ≡ some g)
        × (entry_point g ≡ isr)
        × (g.attr ≡ flags)
        × (g.kernel_cs ≡ 0x08)
        × (g.ist ≡ 0))
      × ((j : ℕ) → vec ≢ j → get_elem? (set_idt_vec vec isr flags s).idt j ≡ get_elem? s.idt j)
      × (length (set_idt_vec vec isr flags s).idt ≡ 256)
unfolding set_idt_vec
set_idt_vec-gate vec isr flags s hv hi hf len =
    let same : vec % 2 ^ 8 ≡ vec = omega arith in
    rw same (
      (
        gate isr flags,
        get_elem?-set_self s.idt vec (gate isr flags) (omega arith),
        gate-entry_point isr flags hi,
        unfold gate in omega arith,
        unfold gate in refl,
        unfold gate in refl,
      ),
      (λ j ne. get_elem?-set_ne s.idt vec j (gate isr flags) ne),
      length-set s.idt vec (gate isr flags) ∙ len,
    )
