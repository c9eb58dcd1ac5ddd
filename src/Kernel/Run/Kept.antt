-- ===== src/Kernel/Run/Kept.antt =====
-- The kernel draws on the frame buffer that the boot loader gave it.
use kess_os.Base.{ℕ, ◌≡◌, refl, List, [], codes, Option, none, some}
use kess_os.Ram.{Ram}
use kess_os.Arch.Io.{Io, Device, Trace, ◌>>=◌}
use kess_os.Arch.MemoryMap.{Meminfo}
use kess_os.Arch.Vmm.{Outcome, done, null_table, divide_error, out_of_fuel, init_vmm}
use kess_os.Drivers.Video.{Canvas, Framebuffer, Psf1Font, clear_screen}
use kess_os.Drivers.Video.Kept.{IsOn}
use kess_os.Drivers.Pit.{Timer, pit_sleep, set_pit_phase}
use kess_os.Drivers.Pcspkr.{pcspkr_play}
use kess_os.Drivers.Pci.Enumerate.{Scan, pci_enumerate_and_log}
use kess_os.Drivers.Pci.Enumerate.Kept.{IsScanOn, enumerate-IsOn}
use kess_os.Firmware.Acpi.{Acpi, acpi_init}
use kess_os.Kernel.Log.{log, s_info}
use kess_os.Kernel.Log.Kept.{log-IsOn}
use kess_os.Kernel.Start.{
  Image, Machine, Started, running, no_message, asleep, and_then, say, init_tables, init_interrupts,
  paged, init_acpi, init,
}
use kess_os.Kernel.Run.Ends.{Ends, then-Ends}
use kess_os.Kernel.Run.{sleep, blank_screen, beep, footer_init, enumerate, after_init, start}

module _ (lfb : Framebuffer) where
  abbrev HasBuffer : Machine → Type 0
  HasBuffer m = m.canvas.lfb ≡ lfb

  -- The machine that runs has its canvas on this frame buffer.
  abbrev pub IsShown : Started → Type 0
  IsShown = Ends HasBuffer

  pub sleep-IsShown :
      (ticks : ℕ) (polls : List ℕ) (m : Machine) (dev : Device) (t : Trace)
      → m.canvas.lfb ≡ lfb
      → IsShown (sleep ticks polls m dev t).0
  unfolding sleep
  sleep-IsShown ticks polls m dev t on = woken (pit_sleep ticks polls m.timer dev t).0
    where
      woken :
          (r : Option Timer)
          → IsShown (elim r [ none ↦ asleep | some timer ↦ running (record m { timer = timer }) ])
      woken none = tt
      woken (some timer) = on

  beep-IsShown :
      (m : Machine) (dev : Device) (t : Trace) → m.canvas.lfb ≡ lfb → IsShown (beep m dev t).0
  unfolding beep
  beep-IsShown m dev t on = played (pcspkr_play 500) refl
    where
      played : (r : Option (Io (Unit {0}))) → pcspkr_play 500 ≡ r → IsShown (beep m dev t).0
      played none e = rw (beep, e) tt
      played (some io) e = rw (beep, e) on

  module _ (img : Image) (dev : Device) where
    say-IsShown :
        (message : List ℕ) (m : Machine) (t : Trace)
        → m.canvas.lfb ≡ lfb
        → IsShown (say img message m dev t).0
    unfolding say
    say-IsShown message m t on =
        said (log img.dec_buf img.hex_buf message s_info [] (m.canvas, m.vmm.ram)) refl
          (log-IsOn lfb img.dec_buf img.hex_buf message s_info [] (m.canvas, m.vmm.ram) on)
      where
        said :
            (r : Option (Canvas × Ram))
            → log img.dec_buf img.hex_buf message s_info [] (m.canvas, m.vmm.ram) ≡ r
            → IsOn lfb r
            → IsShown (say img message m dev t).0
        said none e h = rw (say, e) tt
        said (some (c, ram)) e h = rw (say, e) h

    pub enumerate-IsShown :
        (m : Machine) (t : Trace) → m.canvas.lfb ≡ lfb → IsShown (enumerate img m dev t).0
    unfolding enumerate
    enumerate-IsShown m t on =
        scanned (pci_enumerate_and_log img.dec_buf img.hex_buf (m.canvas, m.vmm.ram) dev t).0
          (enumerate-IsOn lfb img.dec_buf img.hex_buf dev (m.canvas, m.vmm.ram) t on)
      where
        scanned :
            (r : Option Scan)
            → IsScanOn lfb r
            → IsShown (elim r [
              | none ↦ no_message
              | some scan ↦ running (record m {
                canvas = scan.screen.0;
                vmm = record (m.vmm) { ram = scan.screen.1 };
              })
            ])
        scanned none h = tt
        scanned (some scan) h = h

    tables-IsShown :
        (m : Machine) (t : Trace) → m.canvas.lfb ≡ lfb → IsShown (init_tables img m dev t).0
    unfolding init_tables
    tables-IsShown m t on =
        then-Ends HasBuffer HasBuffer _ _ dev _
          (say-IsShown (codes "Setting up exceptions..\n") _ t on)
          λ m1 on1.
            then-Ends HasBuffer HasBuffer _ _ dev _
              (say-IsShown (codes "Installing Interrupt Descriptor Table..\n") _ _ on1)
              λ m2 on2. on2

    interrupts-IsShown :
        (m : Machine) (t : Trace) → m.canvas.lfb ≡ lfb → IsShown (init_interrupts img m dev t).0
    unfolding init_interrupts
    interrupts-IsShown m t on = phased (set_pit_phase 100) refl
      where
        phased :
            (r : Option (Io (Unit {0})))
            → set_pit_phase 100 ≡ r
            → IsShown (init_interrupts img m dev t).0
        phased none e = rw (init_interrupts, e) tt
        phased (some io) e = rw (init_interrupts, e) on

    acpi-IsShown :
        (rsdp : ℕ) (m : Machine) (t : Trace)
        → m.canvas.lfb ≡ lfb
        → IsShown (init_acpi img rsdp m dev t).0
    unfolding init_acpi
    acpi-IsShown rsdp m t on = found (acpi_init img.facp m.vmm.ram rsdp) refl
      where
        found :
            (r : Option Acpi)
            → acpi_init img.facp m.vmm.ram rsdp ≡ r
            → IsShown (init_acpi img rsdp m dev t).0
        found none e = rw (init_acpi, e) tt
        found (some a) e = rw (init_acpi, e) on

    paging-IsShown :
        (rsdp : ℕ) (m : Machine) (r : Outcome) (t : Trace)
        → m.canvas.lfb ≡ lfb
        → IsShown
            (and_then
              (paged img m r)
              (λ m4.
                (say img (codes "Setting up ACPI..\n") m4 >>= λ s5.
                and_then s5 (init_acpi img rsdp)))
              dev
              t).0
    paging-IsShown rsdp m (done v) t on =
        let m4 = record m { vmm = v } in
        let s = say img (codes "Setting up ACPI..\n") m4 dev t in
        then-Ends HasBuffer HasBuffer s.0 (init_acpi img rsdp) dev s.1
          (say-IsShown (codes "Setting up ACPI..\n") m4 t on) λ m5 on5. acpi-IsShown rsdp m5 s.1 on5
    paging-IsShown rsdp m null_table t on = tt
    paging-IsShown rsdp m divide_error t on = tt
    paging-IsShown rsdp m out_of_fuel t on = tt

    pub init-IsShown :
        (fuel : ℕ) (meminfo : Meminfo) (rsdp : ℕ) (m : Machine) (t : Trace)
        → m.canvas.lfb ≡ lfb
        → IsShown (init img fuel meminfo rsdp m dev t).0
    unfolding init
    init-IsShown fuel meminfo rsdp m t on =
        then-Ends HasBuffer HasBuffer _ _ dev _ (tables-IsShown m t on) λ m1 on1.
          then-Ends HasBuffer HasBuffer _ _ dev _ (say-IsShown _ m1 _ on1) λ m2 on2.
            then-Ends HasBuffer HasBuffer _ _ dev _ (interrupts-IsShown m2 _ on2)
              λ m3 on3. paging-IsShown rsdp m3 (init_vmm img.pml4 fuel meminfo m3.vmm) _ on3

    after_init-IsShown :
        (polls1 polls2 polls3 : List ℕ) (m : Machine) (t : Trace)
        → m.canvas.lfb ≡ lfb
        → IsShown (after_init img polls1 polls2 polls3 m dev t).0
    unfolding after_init blank_screen footer_init clear_screen
    after_init-IsShown polls1 polls2 polls3 m t on =
        then-Ends HasBuffer HasBuffer _ _ dev _ (enumerate-IsShown m t on) λ m1 on1.
          then-Ends HasBuffer HasBuffer _ _ dev _ (sleep-IsShown 200 polls1 m1 dev _ on1) λ m2 on2.
            then-Ends HasBuffer HasBuffer _ _ dev _ (sleep-IsShown 150 polls2 m2 dev _ on2)
              λ m3 on3.
                then-Ends HasBuffer HasBuffer _ _ dev _ (beep-IsShown (blank_screen m3) dev _ on3)
                  λ m4 on4.
                    then-Ends HasBuffer HasBuffer _ _ dev _ (sleep-IsShown 25 polls3 m4 dev _ on4)
                      λ m5 on5.
                        then-Ends HasBuffer HasBuffer _ _ dev _ (say-IsShown _ m5 _ on5)
                          λ m6 on6. on6

    pub start-IsShown :
        (fuel : ℕ) (font : Psf1Font) (meminfo : Meminfo) (rsdp legacy_mode : ℕ)
        (polls1 polls2 polls3 : List ℕ) (m : Machine) (t : Trace)
        → IsShown (start img fuel lfb font meminfo rsdp legacy_mode polls1 polls2 polls3 m dev t).0
    unfolding start
    start-IsShown fuel font meminfo rsdp legacy_mode polls1 polls2 polls3 m t =
        then-Ends HasBuffer HasBuffer _ _ dev _ (init-IsShown fuel meminfo rsdp _ t refl)
          λ m1 on1. after_init-IsShown polls1 polls2 polls3 m1 _ on1
