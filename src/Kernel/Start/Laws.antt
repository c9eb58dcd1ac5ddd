-- ===== src/Kernel/Start/Laws.antt =====
-- The machine after `init`.
use kess_os.Base.{
  ℕ, ◌+◌, ◌≤◌, ◌<◌, ◌≡◌, ◌≢◌, ◌^◌, length, some, none, Option, inl, inr, refl, arith, codes, ap,
  subst, sym,
}
use kess_os.Arch.Io.{Device, Trace, ◌>>=◌}
use kess_os.Arch.Pic.Chip.{Chip, ready, master, slave, init_pic-ready}
use kess_os.Arch.MemoryMap.{Memdesc, Meminfo, get_mmap_entries, mmap_iterator_helper}
use kess_os.Arch.Vmm.Pages.{biggest_loop-agree}
use kess_os.Arch.Vmm.Init.{segment, IsPool, Identity, init_vmm-Identity}
use kess_os.Ram.{Ram}
use kess_os.Arch.Vmm.{
  Vmm, Outcome, done, null_table, divide_error, out_of_fuel, biggest_loop, init_vmm,
}
use kess_os.Interrupts.Idt.{Idt, idt_install}
use kess_os.Drivers.Video.{Canvas}
use kess_os.Drivers.Pit.{Timer}
use kess_os.Firmware.Acpi.{Acpi, acpi_init}
use kess_os.Kernel.Log.Total.{Succeeds}
use kess_os.Kernel.Start.{
  Image, Machine, Started, running, halted, no_paging, and_then, exception_handlers,
  interrupt_handlers, set_idt_vecs, say, paged, init_acpi, init,
}
use kess_os.Kernel.Start.Steps.{
  IsMasked, AgreeBelow, KeepsBelow-trans, say-runs, say-keeps, pic-IsPlain, acpi-Fits, tables-run,
  interrupts-run,
}
use kess_os.Kernel.Start.Gates.{
  HasGate, All, IsHandler, AreDistinct, set_idt_vecs-idtr, set_idt_vecs-keeps, set_idt_vecs-gates,
  HasGate-set_idt_vecs,
}

-- The linker puts every handler below 2 ^ 64.
abbrev pub AreAddresses : Image → Type 0
AreAddresses img =
    All (λ h. h.1 < 2 ^ 64) (exception_handlers img)
    × All (λ h. h.1 < 2 ^ 64) (interrupt_handlers img)

-- The table has every gate, and the processor its address.
abbrev pub HasGates : Image → Idt → Type 0
HasGates img s =
    All (HasGate s) (exception_handlers img)
    × All (HasGate s) (interrupt_handlers img)
    × (s.idtr.limit ≡ 4095)
    × (s.idtr.base ≡ img.idt)

-- Both controllers are initialised, with lines 0 to 15 at the vectors from 0x20 on; the master has
-- this mask, and the slave's lines are masked.
abbrev pub AreReady : (c1 c2 : Chip) (mask : ℕ) → Trace → Type 0
AreReady c1 c2 mask t =
    ((master c1 t).stage ≡ ready)
    × ((master c1 t).offset ≡ 0x20)
    × ((master c1 t).mask ≡ mask)
    × ((slave c2 t).stage ≡ ready)
    × ((slave c2 t).offset ≡ 0x28)
    × ((slave c2 t).mask ≡ 0xFF)

-- The memory map that the kernel is given, in memory `m`: its descriptors have a size and lie below
-- `limit`, where no message is drawn; the biggest usable segment is as `IsPool` says, and the fuel
-- is more than its pages. Without a usable segment `set_placement` keeps what it had, `b`.
pub record HasMap (pml4 fuel : ℕ) (meminfo : Meminfo) (limit : ℕ) (m : Ram) : Type 0 where
  pub entries : ℕ
  pub counted : get_mmap_entries meminfo ≡ some entries
  pub inside : (i : ℕ) → i < entries → mmap_iterator_helper i meminfo + 40 ≤ limit
  pub pool :
      (b : Memdesc) → IsPool pml4 (biggest_loop m meminfo entries 0 (record b { n_pages = 0 }))
  pub enough :
      (b : Memdesc) → (biggest_loop m meminfo entries 0 (record b { n_pages = 0 })).n_pages < fuel

-- Paging is set up or runs out of pages, in any memory that agrees with `m` below `limit`.
HasMap-Identity :
    (pml4 fuel : ℕ) (meminfo : Meminfo) (limit : ℕ) (m : Ram) (v : Vmm)
    → HasMap pml4 fuel meminfo limit m
    → AgreeBelow limit m v.ram
    → Identity pml4 (init_vmm pml4 fuel meminfo v)
HasMap-Identity pml4 fuel meminfo limit m v map agree =
    let start = record (v.biggest_segment) { n_pages = 0 } in
    let same : segment meminfo v map.entries ≡ biggest_loop m meminfo map.entries 0 start =
      biggest_loop-agree m v.ram meminfo map.entries 0 start
        (λ j below x lt. agree x (omega (arith, map.inside j (omega arith)))) in
    init_vmm-Identity pml4 fuel meminfo v map.entries map.counted
      (subst (λ b. IsPool pml4 b) (sym same) (map.pool v.biggest_segment))
      (subst (λ (b : Memdesc). b.n_pages < fuel) (sym same) (map.enough v.biggest_segment))

-- The ends of `init`: the machine runs, ACPI halted it, or `alloc_page` had no page left. On the way to the last one all lines but line 0, the timer, are masked.
abbrev pub AfterInit : Image → Timer → (c1 c2 : Chip) → Started × Trace → Type 0
AfterInit img timer c1 c2 (running m, t) =
    HasGates img m.idt × Succeeds m.acpi × (m.timer ≡ timer) × AreReady c1 c2 0xFE t
AfterInit img timer c1 c2 (halted, t) = Unit
AfterInit img timer c1 c2 (no_paging r, t) = r ≡ null_table
AfterInit img timer c1 c2 (_, t) = ⊥

exceptions-distinct : (img : Image) → AreDistinct (exception_handlers img)
exceptions-distinct img = omega arith

interrupts-apart :
    (img : Image)
    → All (λ x. All (λ y. y.0 ≢ x.0) (interrupt_handlers img)) (exception_handlers img)
interrupts-apart img = omega arith

gates_after :
    (img : Image) (s : Idt)
    → AreAddresses img
    → length s.idt ≡ 256
    → HasGates img (
        set_idt_vecs
          (interrupt_handlers img)
          (idt_install img.idt (set_idt_vecs (exception_handlers img) s)))
unfolding idt_install
gates_after img s addresses len =
    let ok1 : All IsHandler (exception_handlers img) = omega arith in
    let ok2 : All IsHandler (interrupt_handlers img) = omega arith in
    let s1 = set_idt_vecs (exception_handlers img) s in
    let s2 = idt_install img.idt s1 in
    let len1 : length s1.idt ≡ 256 =
      (set_idt_vecs-keeps (exception_handlers img) s 0x100 ok1 (omega arith) len).1 in
    (
      HasGate-set_idt_vecs (exception_handlers img) (interrupt_handlers img) s2
          (set_idt_vecs-gates (exception_handlers img) s ok1 (exceptions-distinct img) len) ok2
          (interrupts-apart img) len1,
      set_idt_vecs-gates (interrupt_handlers img) s2 ok2 (omega arith) len1,
      ap (λ r. r.limit) (set_idt_vecs-idtr (interrupt_handlers img) s2),
      ap (λ r. r.base) (set_idt_vecs-idtr (interrupt_handlers img) s2),
    )

module _ (img : Image) (dev : Device) (c1 c2 : Chip) (m : Machine) (t : Trace)
    (gates : HasGates img m.idt) (timer : Timer) (same_timer : m.timer ≡ timer)
    (chips : AreReady c1 c2 0xFE t) where
  acpi_step :
      (rsdp : ℕ) (c : Canvas) (v : Vmm)
      → AfterInit img timer c1 c2 (init_acpi img rsdp (record m { canvas = c; vmm = v }) dev t)
  unfolding init_acpi
  acpi_step rsdp c v = found (acpi_init img.facp v.ram rsdp) refl
    where
      found :
          (r : Option Acpi)
          → acpi_init img.facp v.ram rsdp ≡ r
          → AfterInit img timer c1 c2 (init_acpi img rsdp (record m { canvas = c; vmm = v }) dev t)
      found none e = rw (init_acpi, e) tt
      found (some a) e = rw (init_acpi, e) (gates, (a, refl), same_timer, chips)

  paging_step :
      (rsdp : ℕ) (r : Outcome)
      → Identity img.pml4 r
      → AfterInit img timer c1 c2 (
          and_then
            (paged img m r)
            (λ m4.
              (say img (codes "Setting up ACPI..\n") m4 >>= λ s5. and_then s5 (init_acpi img rsdp)))
            dev
            t)
  paging_step rsdp (done v) ends =
      let (c, v', e) =
        say-runs img dev (codes "Setting up ACPI..\n") (record m { vmm = v }) t
          (acpi-Fits img dev) in
      rw e (acpi_step rsdp c v')
  paging_step rsdp null_table ends = refl
  paging_step rsdp divide_error (inl e) = cc
  paging_step rsdp divide_error (inr (v, e, mapped)) = cc
  paging_step rsdp out_of_fuel (inl e) = cc
  paging_step rsdp out_of_fuel (inr (v, e, mapped)) = cc

-- `init` ends in one of three ways: the pages ran out while paging was set up, ACPI halted the
-- machine, or the machine runs. Then each of the twelve exceptions, the two interrupts and the
-- system call has a gate to its own handler with its own flags, the processor has the table and its
-- limit, ACPI has found its tables, no tick has been counted, and both interrupt controllers are
-- initialised with every line masked but the timer's, which raises vector 0x20. The memory map lies
-- below the frame buffer and names a segment that `IsPool` describes, with fewer pages than the
-- fuel; `init` then never lacks an argument of a message, divides by zero, sleeps or needs more
-- fuel.
pub init-AfterInit :
    (img : Image) (fuel : ℕ) (meminfo : Meminfo) (rsdp : ℕ) (m : Machine) (dev : Device) (t : Trace)
    (c1 c2 : Chip)
    → AreAddresses img
    → length m.idt.idt ≡ 256
    → IsMasked dev c1
    → HasMap img.pml4 fuel meminfo m.canvas.lfb.base_addr m.vmm.ram
    → AfterInit img m.timer c1 c2 (init img fuel meminfo rsdp m dev t)
unfolding init
init-AfterInit img fuel meminfo rsdp m dev t c1 c2 addresses len masked map =
    let (m1, e1, i1, same_timer, stack, kept1) = tables-run img dev m t in
    let (c, v, e2, kept2) =
      say-keeps img dev (codes "Setting up legacy PIC (legacy mode is off, will use APIC one day\n")
        m1 t (pic-IsPlain img dev) in
    let m2 = record m1 { canvas = c; vmm = v } in
    let agree = (KeepsBelow-trans m m1 m2 kept1 kept2).1 in
    let (t3, e3, up, down) = interrupts-run img dev m2 t c1 c2 masked in
    let m3 = record m2 { idt = set_idt_vecs (interrupt_handlers img) m2.idt } in
    let chips = init_pic-ready dev t c1 c2 in
    let gates : HasGates img m3.idt = rw i1 (gates_after img m.idt addresses len) in
    rw (init, e1, e2, e3)
      (paging_step img dev c1 c2 m3 t3 gates m.timer same_timer
        (rw (up, down, chips.0, chips.1) (refl, refl, refl, refl, refl, refl)) rsdp
        (init_vmm img.pml4 fuel meminfo v)
        (HasMap-Identity img.pml4 fuel meminfo m.canvas.lfb.base_addr m.vmm.ram v map agree))
