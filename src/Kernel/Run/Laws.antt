-- ===== src/Kernel/Run/Laws.antt =====
-- The machine that goes to user space.
use kess_os.Base.{ℕ, ◌+◌, ◌%◌, ◌^◌, ◌≤◌, ◌<◌, ◌≡◌, List, ◌∷◌, length, refl, arith, ap, ◌∙◌}
use kess_os.Arch.Io.{Device, Trace, out8, in8}
use kess_os.Arch.Pic.Chip.{Chip, feed, ready, master}
use kess_os.Arch.MemoryMap.{Meminfo}
use kess_os.Arch.Vmm.{null_table}
use kess_os.Drivers.Video.{Framebuffer, Psf1Font}
use kess_os.Drivers.Pit.{Timer}
use kess_os.Drivers.Pit.Laws.{total}
use kess_os.Drivers.Pcspkr.{pcspkr_shutup}
use kess_os.Drivers.Pcspkr.Laws.{pcspkr_shutup-closes}
use kess_os.Drivers.Pci.Fields.{Config, IsHostBridge}
use kess_os.Kernel.Log.Total.{Succeeds}
use kess_os.Kernel.Start.{
  Image, Machine, Started, running, halted, division_error, no_message, asleep, no_paging, and_then,
  init,
}
use kess_os.Kernel.Start.Laws.{AreAddresses, HasGates, AreReady, HasMap, AfterInit, init-AfterInit}
use kess_os.Kernel.Start.Steps.{IsMasked}
use kess_os.Kernel.Run.{blank_screen, after_init, start}
use kess_os.Kernel.Run.Steps.{sleep-runs, beep-runs, enumerate-runs, footer-runs}
use kess_os.Kernel.Run.Quiet.{Same, Same-trans, shutup-Same}

-- The speaker's gate has been closed, and after that only the mask of the master was written.
abbrev pub IsSilent : Trace → Type 0
IsSilent t =
    (v : ℕ) × (t0 : Trace) × (t ≡ out8 0x21 0xFC ∷ in8 0x21 ∷ out8 0x61 v ∷ in8 0x61 ∷ t0)
    × (v % 4 ≡ 0)

-- The ends of `_start` before user space.
abbrev pub AfterStart : Image → (ticks : ℕ) → (c1 c2 : Chip) → Started × Trace → Type 0
AfterStart img ticks c1 c2 (running m, t) =
    HasGates img m.idt
    × Succeeds m.acpi
    × (ticks ≤ m.timer.ticks)
    × IsSilent t
    × AreReady c1 c2 0xFC t
AfterStart img ticks c1 c2 (halted, t) = Unit
AfterStart img ticks c1 c2 (no_paging r, t) = r ≡ null_table
AfterStart img ticks c1 c2 (_, t) = ⊥

feed-ready : (c : Chip) → c.stage ≡ ready → feed c.stage 0xFC c ≡ record c { mask = 0xFC }
feed-ready c e = rw e refl

module _ (img : Image) (dev : Device) (c1 c2 : Chip) where
  -- Chips that are alike are ready alike.
  AreReady-Same :
      (mask : ℕ) (t t' : Trace)
      → AreReady c1 c2 mask t
      → Same dev c1 c2 t t'
      → AreReady c1 c2 mask t'
  AreReady-Same mask t t' r s = (
    s.master_alike.0 ∙ r.0,
    s.master_alike.1 ∙ r.1,
    s.master_alike.2 ∙ r.2,
    s.slave_alike.0 ∙ r.3,
    s.slave_alike.1 ∙ r.4,
    s.slave_alike.2 ∙ r.5,
  )

  -- A write to the data port of a chip that is ready sets its mask.
  AreReady-mask :
      (t : Trace) → AreReady c1 c2 0xFE t → AreReady c1 c2 0xFC (out8 0x21 0xFC ∷ in8 0x21 ∷ t)
  AreReady-mask t r =
      let new = feed-ready (master c1 t) r.0 in rw new (r.0, r.1, refl, r.3, r.4, r.5)

  -- From the enumeration of the PCI bus on.
  rest-AfterStart :
      {cfg : Config} (bridge : IsHostBridge dev cfg) (masked : IsMasked dev c1)
      (polls1 polls2 polls3 : List ℕ) (m : Machine) (t : Trace) (acpi : Succeeds m.acpi)
      → HasGates img m.idt
      → AreReady c1 c2 0xFE t
      → m.timer.ticks + total polls1 + total polls2 + total polls3 < 2 ^ 64
      → 200 ≤ total polls1
      → 150 ≤ total polls2
      → 25 ≤ total polls3
      → AfterStart img (m.timer.ticks + 375) c1 c2 (after_init img polls1 polls2 polls3 m dev t)
  unfolding after_init blank_screen
  rest-AfterStart bridge masked polls1 polls2 polls3 m t acpi gates up small enough1 enough2
        enough3 =
      let (c, v, t1, e1, q1) = enumerate-runs img dev c1 c2 bridge m t in
      let m1 = record m { canvas = c; vmm = v } in
      let (timer2, t2, e2, over2, soon2, q2) =
        sleep-runs img dev c1 c2 200 polls1 m1 t1 (omega arith) enough1 in
      let m2 = record m1 { timer = timer2 } in
      let (timer3, t3, e3, over3, soon3, q3) =
        sleep-runs img dev c1 c2 150 polls2 m2 t2 (omega (arith, soon2)) enough2 in
      let m3 = blank_screen (record m2 { timer = timer3 }) in
      let (t4, e4, q4) = beep-runs img dev c1 c2 m3 t3 in
      let (timer5, t5, e5, over5, soon5, q5) =
        sleep-runs img dev c1 c2 25 polls3 m3 t4 (omega (arith, soon2, soon3)) enough3 in
      let m5 = record m3 { timer = timer5 } in
      let t6 = (pcspkr_shutup dev t5).1 in
      let (gate, closed, low) = pcspkr_shutup-closes dev t5 in
      let q6 = shutup-Same dev c1 c2 t5 in
      let q = Same-trans dev c1 c2 t t1 t6 q1 (
        Same-trans dev c1 c2 t1 t2 t6 q2 (
          Same-trans dev c1 c2 t2 t3 t6 q3
            (Same-trans dev c1 c2 t3 t4 t6 q4 (Same-trans dev c1 c2 t4 t5 t6 q5 q6)))) in
      let ready6 = AreReady-Same 0xFE t t6 up q in
      let (c7, v7, e7) = footer-runs img dev c1 c2 m5 t6 (masked t6 ∙ ready6.2) in
      rw (after_init, e1, e2, e3, e4, e5, e7)
        (
          gates,
          acpi,
          omega (arith, over2, over3, over5),
          (gate, t5, rw closed refl, omega (arith, low)),
          AreReady-mask t6 ready6,
        )

  -- The rest of `_start` after each end of `init`.
  end-AfterStart :
      {cfg : Config} (bridge : IsHostBridge dev cfg) (masked : IsMasked dev c1)
      (polls1 polls2 polls3 : List ℕ) (timer : Timer)
      → timer.ticks + total polls1 + total polls2 + total polls3 < 2 ^ 64
      → 200 ≤ total polls1
      → 150 ≤ total polls2
      → 25 ≤ total polls3
      → (r : Started × Trace) → AfterInit img timer c1 c2 r
      → AfterStart img
          (timer.ticks + 375)
          c1
          c2
          (and_then r.0 (after_init img polls1 polls2 polls3) dev r.1)
  end-AfterStart bridge masked polls1 polls2 polls3 timer small e1 e2 e3 (running m, t)
        (gates, acpi, same, up) =
      let same_ticks : m.timer.ticks ≡ timer.ticks = ap (λ (s : Timer). s.ticks) same in
      rw (← same_ticks) (
        rest-AfterStart bridge masked polls1 polls2 polls3 m t acpi gates up
          (omega (arith, same_ticks)) e1 e2 e3)
  end-AfterStart bridge masked polls1 polls2 polls3 timer small e1 e2 e3 (halted, t) end = tt
  end-AfterStart bridge masked polls1 polls2 polls3 timer small e1 e2 e3 (no_paging r, t) end = end
  end-AfterStart bridge masked polls1 polls2 polls3 timer small e1 e2 e3 (division_error, t) end =
      end
  end-AfterStart bridge masked polls1 polls2 polls3 timer small e1 e2 e3 (no_message, t) end = end
  end-AfterStart bridge masked polls1 polls2 polls3 timer small e1 e2 e3 (asleep, t) end = end

-- `_start` fails to reach user space in two ways only: the pages ran out while paging was set up,
-- or ACPI halted the machine. Otherwise, when enough timer interrupts come during its three sleeps,
-- it gets there: every exception, interrupt and system call has its gate, ACPI has found its
-- tables, at least 375 ticks have passed, the speaker is off, and both interrupt controllers are
-- initialised with every line masked but the timer's and the keyboard's. No class name or message
-- argument is missing on the way. The host bridge answers, the ticks do not wrap, and the memory map
-- lies below the frame buffer and names a segment that `IsPool` describes, with fewer pages than
-- the fuel.
pub start-AfterStart :
    (img : Image) (fuel : ℕ) (lfb : Framebuffer) (font : Psf1Font) (meminfo : Meminfo)
    (rsdp legacy_mode : ℕ) (polls1 polls2 polls3 : List ℕ) (m : Machine) (dev : Device) (t : Trace)
    (c1 c2 : Chip) {cfg : Config}
    → IsHostBridge dev cfg
    → IsMasked dev c1
    → AreAddresses img
    → length m.idt.idt ≡ 256
    → HasMap img.pml4 fuel meminfo lfb.base_addr m.vmm.ram
    → m.timer.ticks + total polls1 + total polls2 + total polls3 < 2 ^ 64
    → 200 ≤ total polls1
    → 150 ≤ total polls2
    → 25 ≤ total polls3
    → AfterStart img
        (m.timer.ticks + 375)
        c1
        c2
        (start img fuel lfb font meminfo rsdp legacy_mode polls1 polls2 polls3 m dev t)
unfolding start
start-AfterStart img fuel lfb font meminfo rsdp legacy_mode polls1 polls2 polls3 m dev t c1 c2
      bridge masked addresses len map small e1 e2 e3 =
    let entered = record m {
      canvas = record (m.canvas) { font = font; lfb = lfb };
      legacy_mode_enabled = legacy_mode;
    } in
    end-AfterStart img dev c1 c2 bridge masked polls1 polls2 polls3 m.timer small e1 e2 e3
      (init img fuel meminfo rsdp entered dev t)
      (init-AfterInit img fuel meminfo rsdp entered dev t c1 c2 addresses len masked map)
