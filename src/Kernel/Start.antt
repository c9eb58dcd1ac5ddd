-- ===== src/Kernel/Start.antt =====
-- kernel/src/kernel.c: `init`, which starts the components one after the
-- other. `load_gdt` and `sti` are assembly and leave this
-- state alone. A message of `acpi_init` or `ps2_keyboard_init` is written before the call.
pub mod Gates
pub mod Steps
pub mod Laws
pub mod Stack
mod Tests
use kess_os.Base.{ℕ, List, [], ◌∷◌, codes, Option, none, some, bit_xor}
use kess_os.Ram.{Ram}
use kess_os.Arch.Io.{Io, pure, ◌>>=◌, ◌>>◌, inportb, outportb}
use kess_os.Arch.Pic.{init_pic, pic1_data}
use kess_os.Arch.MemoryMap.{Meminfo}
use kess_os.Arch.Vmm.{Vmm, Outcome, done, null_table, divide_error, out_of_fuel, init_vmm}
use kess_os.Proc.Tss.{Tss, init_tss}
use kess_os.Interrupts.Idt.{
  Idt, set_idt_vec, idt_install, trap_gate_flags, int_gate_flags, idt_int_gate_user,
}
use kess_os.Drivers.Video.{Canvas, Framebuffer, Psf1Font, clear_screen}
use kess_os.Drivers.Pit.{Timer, set_pit_phase, pit_sleep}
use kess_os.Drivers.Pcspkr.{pcspkr_play, pcspkr_shutup}
use kess_os.Drivers.Keyboard.{ps2_keyboard_init}
use kess_os.Drivers.Pci.Enumerate.{Scan, pci_enumerate_and_log}
use kess_os.Firmware.Acpi.{Acpi, acpi_init}
use kess_os.Interrupts.Syscall.{Os}
use kess_os.Kernel.Log.{log, s_info}

-- The addresses that the linker gives the handlers and the static data, and the code that the words
-- behind `syscall_table` name.
pub record Image : Type 0 where
  pub div0_handler : ℕ
  pub debug_exception : ℕ
  pub overflow_exception : ℕ
  pub bre_exception : ℕ
  pub invalid_opcode_exception : ℕ
  pub dev_not_avail_exception : ℕ
  pub double_fault : ℕ
  pub invalid_tss_exception : ℕ
  pub snp_exception : ℕ
  pub stackseg_fault : ℕ
  pub gpf : ℕ
  pub page_fault : ℕ
  pub irq0_handler : ℕ
  pub irq1_handler : ℕ
  pub syscall_gate : ℕ
  pub idt : ℕ
  pub tss_entry : ℕ
  pub pml4 : ℕ
  pub facp : ℕ
  pub dec_buf : ℕ
  pub hex_buf : ℕ
  pub behind_syscalls : ℕ → Os → Io Os

-- The statics of the components; memory is in `vmm`.
pub record Machine : Type 0 where
  pub canvas : Canvas
  pub legacy_mode_enabled : ℕ
  pub vmm : Vmm
  pub tss : Tss
  pub idt : Idt
  pub timer : Timer
  pub acpi : Option Acpi

-- How a part of the start ends: with the machine, halted by a missing or bad table, with the
-- divide error, with the end of `init_vmm` that is not `done`, without a message's arguments, or
-- still asleep when the interrupts of the model are used up.
pub data Started : Type 0 where
  running : Machine → Started
  halted division_error no_message asleep : Started
  no_paging : Outcome → Started

abbrev pub and_then : Started → (Machine → Io Started) → Io Started
and_then (running m) k = k m
and_then r k = pure r

abbrev pub Handler : Type 0
Handler = ℕ × ℕ × ℕ

-- The calls of `set_idt_vec` for the exceptions: vector, handler and flags.
abbrev pub exception_handlers : Image → List Handler
exception_handlers img =
    (0x0, img.div0_handler, trap_gate_flags)
    ∷ (0x1, img.debug_exception, trap_gate_flags)
    ∷ (0x4, img.overflow_exception, trap_gate_flags)
    ∷ (0x5, img.bre_exception, trap_gate_flags)
    ∷ (0x6, img.invalid_opcode_exception, trap_gate_flags)
    ∷ (0x7, img.dev_not_avail_exception, trap_gate_flags)
    ∷ (0x8, img.double_fault, trap_gate_flags)
    ∷ (0xA, img.invalid_tss_exception, trap_gate_flags)
    ∷ (0xB, img.snp_exception, trap_gate_flags)
    ∷ (0xC, img.stackseg_fault, trap_gate_flags)
    ∷ (0xD, img.gpf, trap_gate_flags)
    ∷ (0xE, img.page_fault, trap_gate_flags)
    ∷ []

-- The calls for the interrupts and the system calls.
abbrev pub interrupt_handlers : Image → List Handler
interrupt_handlers img =
    (0x20, img.irq0_handler, int_gate_flags)
    ∷ (0x21, img.irq1_handler, int_gate_flags)
    ∷ (0x80, img.syscall_gate, idt_int_gate_user)
    ∷ []

-- The calls one after the other.
unfoldable pub set_idt_vecs : List Handler → Idt → Idt
set_idt_vecs [] s = s
set_idt_vecs ((vec, isr, flags) ∷ calls) s = set_idt_vecs calls (set_idt_vec vec isr flags s)

module _ (img : Image) where
  -- A message of `init`, of status `S_INFO`.
  unfoldable pub say : (message : List ℕ) → Machine → Io Started
  say message m = elim (log img.dec_buf img.hex_buf message s_info [] (m.canvas, m.vmm.ram)) [
    | none ↦ pure no_message
    | some r ↦ pure (running (record m { canvas = r.0; vmm = record (m.vmm) { ram = r.1 } }))
  ]

  -- `init` up to the message about the legacy PIC.
  unfoldable pub init_tables : Machine → Io Started
  init_tables m =
      let r = init_tss img.tss_entry m.vmm m.tss in
      say (codes "Setting up exceptions..\n") (record m { tss = r.0; vmm = r.1 }) >>= λ s1.
      and_then s1 λ m1.
        say (codes "Installing Interrupt Descriptor Table..\n")
          (record m1 { idt = set_idt_vecs (exception_handlers img) m1.idt })
        >>= λ s2. and_then s2 λ m2. pure (running (record m2 { idt = idt_install img.idt m2.idt }))

  -- From `init_pic` to the unmasked timer.
  unfoldable pub init_interrupts : Machine → Io Started
  init_interrupts m =
      init_pic
      >> let m1 = record m { idt = set_idt_vecs (interrupt_handlers img) m.idt } in
        elim (set_pit_phase 100) [
          | none ↦ pure division_error
          | some io ↦
              io
              >> (inportb pic1_data >>= λ mask.
                  outportb pic1_data (bit_xor mask 1) >> pure (running m1))
        ]

  -- The result of `init_vmm`, as `init` goes on.
  abbrev pub paged : Machine → Outcome → Started
  paged m (done vmm) = running (record m { vmm = vmm })
  paged m r = no_paging r

  -- `acpi_init`, which halts the machine where the model has `none`.
  unfoldable pub init_acpi : (rsdp : ℕ) → Machine → Io Started
  init_acpi rsdp m = elim (acpi_init img.facp m.vmm.ram rsdp) [
    | none ↦ pure halted
    | some acpi ↦ pure (running (record m { acpi = some acpi }))
  ]

  unfoldable pub init : (fuel : ℕ) → Meminfo → (rsdp : ℕ) → Machine → Io Started
  unfolding init_tables init_interrupts init_acpi
  init fuel meminfo rsdp m = init_tables m >>= λ s1. and_then s1 λ m1.
      say (codes "Setting up legacy PIC (legacy mode is off, will use APIC one day\n") m1 >>= λ s2.
      and_then s2 λ m2. init_interrupts m2 >>= λ s3. and_then s3 λ m3.
        and_then (paged m3 (init_vmm img.pml4 fuel meminfo m3.vmm))
          λ m4. say (codes "Setting up ACPI..\n") m4 >>= λ s5. and_then s5 (init_acpi rsdp)
