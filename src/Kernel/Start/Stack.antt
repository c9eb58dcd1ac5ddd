-- ===== src/Kernel/Start/Stack.antt =====
-- The ring-0 stack that `init` leaves in the TSS.
use kess_os.Base.{ℕ, ◌≡◌, refl, List, [], codes, Option, none, some, ◌∙◌, ap}
use kess_os.Ram.{Ram}
use kess_os.Arch.Io.{Io, Device, Trace, ◌>>=◌}
use kess_os.Arch.MemoryMap.{Meminfo}
use kess_os.Arch.Vmm.{Outcome, done, null_table, divide_error, out_of_fuel, init_vmm}
use kess_os.Arch.Vmm.Invariant.{pages_left}
use kess_os.Proc.Tss.{Tss}
use kess_os.Proc.Tss.Laws.{stack_pointer, init_tss-before_vmm}
use kess_os.Drivers.Video.{Canvas}
use kess_os.Drivers.Pit.{set_pit_phase}
use kess_os.Firmware.Acpi.{Acpi, acpi_init}
use kess_os.Kernel.Log.{log, s_info}
use kess_os.Kernel.Start.{
  Image, Machine, Started, running, halted, division_error, no_message, asleep, no_paging, and_then,
  say, init_interrupts, paged, init_acpi, init,
}
use kess_os.Kernel.Start.Steps.{tables-run}
use kess_os.Kernel.Run.Ends.{Ends, then-Ends}

abbrev HasTss : Tss → Machine → Type 0
HasTss tss m = m.tss ≡ tss

module _ (tss : Tss) (img : Image) (dev : Device) where
  -- The machine that runs still has this TSS.
  abbrev KeepsTss : Started → Type 0
  KeepsTss = Ends (HasTss tss)

  say-KeepsTss :
      (message : List ℕ) (m : Machine) (t : Trace)
      → HasTss tss m
      → KeepsTss (say img message m dev t).0
  unfolding say
  say-KeepsTss message m t has =
      said (log img.dec_buf img.hex_buf message s_info [] (m.canvas, m.vmm.ram)) refl
    where
      said :
          (r : Option (Canvas × Ram))
          → log img.dec_buf img.hex_buf message s_info [] (m.canvas, m.vmm.ram) ≡ r
          → KeepsTss (say img message m dev t).0
      said none e = rw (say, e) tt
      said (some r) e = rw (say, e) has

  interrupts-KeepsTss :
      (m : Machine) (t : Trace) → HasTss tss m → KeepsTss (init_interrupts img m dev t).0
  unfolding init_interrupts
  interrupts-KeepsTss m t has = phased (set_pit_phase 100) refl
    where
      phased :
          (r : Option (Io (Unit {0})))
          → set_pit_phase 100 ≡ r
          → KeepsTss (init_interrupts img m dev t).0
      phased none e = rw (init_interrupts, e) tt
      phased (some io) e = rw (init_interrupts, e) has

  acpi-KeepsTss :
      (rsdp : ℕ) (m : Machine) (t : Trace) → HasTss tss m → KeepsTss (init_acpi img rsdp m dev t).0
  unfolding init_acpi
  acpi-KeepsTss rsdp m t has = found (acpi_init img.facp m.vmm.ram rsdp) refl
    where
      found :
          (r : Option Acpi)
          → acpi_init img.facp m.vmm.ram rsdp ≡ r
          → KeepsTss (init_acpi img rsdp m dev t).0
      found none e = rw (init_acpi, e) tt
      found (some a) e = rw (init_acpi, e) has

  paging-KeepsTss :
      (rsdp : ℕ) (m : Machine) (r : Outcome) (t : Trace)
      → HasTss tss m
      → KeepsTss
          (and_then
            (paged img m r)
            (λ m4.
              (say img (codes "Setting up ACPI..\n") m4 >>= λ s5. and_then s5 (init_acpi img rsdp)))
            dev
            t).0
  paging-KeepsTss rsdp m (done v) t has =
      let m4 = record m { vmm = v } in
      let s = say img (codes "Setting up ACPI..\n") m4 dev t in
      then-Ends (HasTss tss) (HasTss tss) s.0 (init_acpi img rsdp) dev s.1
        (say-KeepsTss (codes "Setting up ACPI..\n") m4 t has)
        λ m5 has5. acpi-KeepsTss rsdp m5 s.1 has5
  paging-KeepsTss rsdp m null_table t has = tt
  paging-KeepsTss rsdp m divide_error t has = tt
  paging-KeepsTss rsdp m out_of_fuel t has = tt

-- A machine that runs with a ring-0 stack at 4080.
abbrev pub HasLowStack : Machine → Type 0
HasLowStack m = stack_pointer m.tss.entry ≡ 4080

tss-HasLowStack :
    (tss : Tss) (r : Started)
    → stack_pointer tss.entry ≡ 4080
    → Ends (HasTss tss) r
    → Ends HasLowStack r
tss-HasLowStack tss (running m) low has = ap (λ (s : Tss). stack_pointer s.entry) has ∙ low
tss-HasLowStack tss halted low has = tt
tss-HasLowStack tss division_error low has = tt
tss-HasLowStack tss no_message low has = tt
tss-HasLowStack tss asleep low has = tt
tss-HasLowStack tss (no_paging r) low has = tt

-- The static `biggestSegment` has no pages when `init` is called, as it is in the kernel's file,
-- and `init` calls `init_tss` before `init_vmm`: if the machine runs after `init`, its ring-0 stack
-- is at the address 4080, on the first page, whatever segment the memory map has.
pub init-HasLowStack :
    (img : Image) (fuel : ℕ) (meminfo : Meminfo) (rsdp : ℕ) (m : Machine) (dev : Device) (t : Trace)
    → pages_left m.vmm ≡ 0
    → Ends HasLowStack (init img fuel meminfo rsdp m dev t).0
unfolding init
init-HasLowStack img fuel meminfo rsdp m dev t empty =
    let (m1, e1, i1, same_timer, same_tss, kept1) = tables-run img dev m t in
    let tss = m1.tss in
    let low : stack_pointer tss.entry ≡ 4080 =
      ap (λ (s : Tss). stack_pointer s.entry) same_tss
      ∙ init_tss-before_vmm img.tss_entry m.vmm m.tss empty in
    rw (init, e1)
      (tss-HasLowStack tss _ low (
        then-Ends (HasTss tss) (HasTss tss) _ _ dev _ (say-KeepsTss tss img dev _ m1 _ refl)
          λ m2 has2.
            then-Ends (HasTss tss) (HasTss tss) _ _ dev _
              (interrupts-KeepsTss tss img dev m2 _ has2)
              λ m3 has3.
                paging-KeepsTss tss img dev rsdp m3 (init_vmm img.pml4 fuel meminfo m3.vmm) _ has3))
