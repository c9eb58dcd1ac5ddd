-- ===== src/Kernel/Start/Steps.antt =====
-- Each part of `init`.
use kess_os.Ram.{Ram}
use kess_os.Base.{ℕ, ◌≡◌, ◌<◌, ◌++◌, List, [], ◌∷◌, refl, arith, codes, ap, ◌∙◌}
use kess_os.Arch.Io.{Device, Trace, out8, in8}
use kess_os.Arch.Pic.{init_pic}
use kess_os.Arch.Pic.Chip.{Chip, master, slave, init_pic-ready}
use kess_os.Arch.Vmm.{Vmm, alloc_page}
use kess_os.Proc.Tss.{Tss, init_tss}
use kess_os.Interrupts.Idt.{idt_install}
use kess_os.Drivers.Video.{Canvas, kwrite}
use kess_os.Drivers.Video.Kept.{kwrite-lfb}
use kess_os.Drivers.Video.Below.{kwrite-below}
use kess_os.Kernel.Log.Laws.{IsPlain, log-kwrite}
use kess_os.Drivers.Pit.Laws.{set_pit_phase-sends}
use kess_os.Kernel.Log.{s_info, status_prefix, directive}
use kess_os.Kernel.Log.Total.{Fits, log-Fits}
use kess_os.Kernel.Start.{
  Image, Machine, running, exception_handlers, interrupt_handlers, set_idt_vecs, say, init_tables,
  init_interrupts,
}

-- The two memories agree below an address.
abbrev pub AgreeBelow : (limit : ℕ) → (m m' : Ram) → Type 0
AgreeBelow limit m m' = (a : ℕ) → a < limit → m' a ≡ m a

-- What a part of `init` leaves of the frame buffer and of the memory below it.
abbrev pub KeepsBelow : (m m' : Machine) → Type 0
KeepsBelow m m' =
    (m'.canvas.lfb ≡ m.canvas.lfb) × AgreeBelow m.canvas.lfb.base_addr m.vmm.ram m'.vmm.ram

pub KeepsBelow-trans : (m m' m'' : Machine) → KeepsBelow m m' → KeepsBelow m' m'' → KeepsBelow m m''
KeepsBelow-trans m m' m'' (same, agree) (same', agree') =
    (same' ∙ same, λ a below. agree' a (rw same below) ∙ agree a below)

init_tss-ram : (tss_entry : ℕ) (v : Vmm) (s : Tss) → (init_tss tss_entry v s).1.ram ≡ v.ram
unfolding init_tss alloc_page
init_tss-ram tss_entry v s = ground arith

-- A read of the master's data port gives its mask, as the data sheet of the 8259 says.
abbrev pub IsMasked : (dev : Device) (c : Chip) → Type 0
IsMasked dev c = (t : Trace) → dev t 0x21 ≡ (master c t).mask

module _ (img : Image) (dev : Device) where
  -- A message changes the canvas and memory, and reads no port.
  pub say-runs :
      (message : List ℕ) (m : Machine) (t : Trace)
      → Fits message []
      → (c : Canvas) × (v : Vmm) × (say img message m dev t
          ≡ (running (record m { canvas = c; vmm = v }), t))
  unfolding say
  say-runs message m t fits =
      let written = log-Fits img.dec_buf img.hex_buf message s_info [] (m.canvas, m.vmm.ram) fits in
      (written.0.0, record (m.vmm) { ram = written.0.1 }, rw (say, written.1) refl)

  -- A message without directives is drawn on the screen.
  pub say-keeps :
      (message : List ℕ) (m : Machine) (t : Trace)
      → IsPlain message
      → (c : Canvas) × (v : Vmm) × (say img message m dev t
          ≡ (running (record m { canvas = c; vmm = v }), t))
        × KeepsBelow m (record m { canvas = c; vmm = v })
  unfolding say
  say-keeps message m t plain =
      let screen : Canvas × Ram = (m.canvas, m.vmm.ram) in
      let text = status_prefix s_info ++ message in
      let r = kwrite text 0x00FF00 screen in
      let written = log-kwrite img.dec_buf img.hex_buf message s_info [] screen plain in
      (
        r.0,
        record (m.vmm) { ram = r.1 },
        rw (say, written) refl,
        (kwrite-lfb text 0x00FF00 screen, λ a below. kwrite-below text 0x00FF00 a screen below),
      )

  exceptions-IsPlain : IsPlain (codes "Setting up exceptions..\n")
  exceptions-IsPlain = ground arith

  installing-IsPlain : IsPlain (codes "Installing Interrupt Descriptor Table..\n")
  installing-IsPlain = ground arith

  pub pic-IsPlain :
      IsPlain (codes "Setting up legacy PIC (legacy mode is off, will use APIC one day\n")
  pic-IsPlain = ground arith

  pub acpi-Fits : Fits (codes "Setting up ACPI..\n") []
  unfolding directive
  acpi-Fits = omega arith

  -- After the tables: the exceptions have their gates, the processor has the table, and the frame
  -- buffer and the memory below it are as before.
  pub tables-run :
      (m : Machine) (t : Trace)
      → (m' : Machine) × (init_tables img m dev t ≡ (running m', t))
        × (m'.idt ≡ idt_install img.idt (set_idt_vecs (exception_handlers img) m.idt))
        × (m'.timer ≡ m.timer)
        × (m'.tss ≡ (init_tss img.tss_entry m.vmm m.tss).0)
        × KeepsBelow m m'
  unfolding init_tables
  tables-run m t =
      let r = init_tss img.tss_entry m.vmm m.tss in
      let m0 = record m { tss = r.0; vmm = r.1 } in
      let (c1, v1, e1, kept1) =
        say-keeps (codes "Setting up exceptions..\n") m0 t exceptions-IsPlain in
      let m1 = record m0 {
        canvas = c1;
        vmm = v1;
        idt = set_idt_vecs (exception_handlers img) m.idt;
      } in
      let (c2, v2, e2, kept2) =
        say-keeps (codes "Installing Interrupt Descriptor Table..\n") m1 t installing-IsPlain in
      (
        record m1 { canvas = c2; vmm = v2; idt = idt_install img.idt m1.idt },
        rw (init_tables, e1, e2) refl,
        refl,
        refl,
        refl,
        (
          kept2.0 ∙ kept1.0,
          λ a below.
              kept2.1 a (rw kept1.0 below)
              ∙ kept1.1 a below
              ∙ ap (λ (ram : Ram). ram a) (init_tss-ram img.tss_entry m.vmm m.tss),
        ),
      )

  -- After the interrupts: their gates too, the chips ready, and line 0 alone unmasked.
  pub interrupts-run :
      (m : Machine) (t : Trace) (c1 c2 : Chip)
      → IsMasked dev c1
      → (t' : Trace) × (init_interrupts img m dev t
          ≡ (running (record m { idt = set_idt_vecs (interrupt_handlers img) m.idt }), t'))
        × (master c1 t' ≡ record (master c1 (init_pic dev t).1) { mask = 0xFE })
        × (slave c2 t' ≡ slave c2 (init_pic dev t).1)
  unfolding init_interrupts init_pic
  interrupts-run m t c1 c2 masked =
      let t1 = (init_pic dev t).1 in
      let (io, e, lo, hi, sent, whole) = set_pit_phase-sends 100 dev t1 (omega arith) in
      let t2 = out8 0x40 hi ∷ out8 0x40 lo ∷ out8 0x43 0x36 ∷ t1 in
      let mask : dev t2 0x21 ≡ 0xFF =
        masked t2 ∙ ap (λ (c : Chip). c.mask) (init_pic-ready dev t c1 c2).0 in
      (out8 0x21 0xFE ∷ in8 0x21 ∷ t2, rw (init_interrupts, e, sent, mask) refl, refl, refl)
