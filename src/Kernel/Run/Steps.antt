-- ===== src/Kernel/Run/Steps.antt =====
-- Each part of `_start` after `init`.
use kess_os.Base.{ℕ, ◌+◌, ◌/◌, ◌^◌, ◌≤◌, ◌<◌, ◌≡◌, List, [], ◌∷◌, codes, refl, arith}
use kess_os.Ram.{Ram}
use kess_os.Arch.Io.{Device, Trace, out8, in8}
use kess_os.Arch.Pic.Chip.{Chip}
use kess_os.Arch.Vmm.{Vmm}
use kess_os.Drivers.Video.{Canvas}
use kess_os.Drivers.Pit.{Timer, pit_sleep}
use kess_os.Drivers.Pit.Laws.{total, pit_sleep-waits}
use kess_os.Drivers.Pcspkr.{play_divisor, pcspkr_play}
use kess_os.Drivers.Keyboard.{ps2_keyboard_init}
use kess_os.Drivers.Pci.Fields.{Config, IsHostBridge}
use kess_os.Drivers.Pci.Enumerate.{pci_enumerate_and_log}
use kess_os.Drivers.Pci.Enumerate.Laws.{pci_enumerate_and_log-counts}
use kess_os.Kernel.Log.{directive}
use kess_os.Kernel.Log.Total.{Fits}
use kess_os.Kernel.Start.{Image, Machine, running}
use kess_os.Kernel.Start.Steps.{say-runs}
use kess_os.Kernel.Run.{sleep, footer_init, enumerate, beep}
use kess_os.Kernel.Run.Quiet.{Same, enumerate-Same, sleep-Same, play-Same}

module _ (img : Image) (dev : Device) (c1 c2 : Chip) where
  pub sleep-runs :
      (ticks : ℕ) (polls : List ℕ) (m : Machine) (t : Trace)
      → m.timer.ticks + total polls < 2 ^ 64
      → ticks ≤ total polls
      → (timer : Timer) × (t' : Trace) × (sleep ticks polls m dev t
          ≡ (running (record m { timer = timer }), t'))
        × (m.timer.ticks + ticks ≤ timer.ticks)
        × (timer.ticks ≤ m.timer.ticks + total polls)
        × Same dev c1 c2 t t'
  unfolding sleep
  sleep-runs ticks polls m t small enough =
      let (timer, e, over, soon) = pit_sleep-waits ticks polls m.timer dev t small enough in
      (
        timer,
        (pit_sleep ticks polls m.timer dev t).1,
        rw (sleep, e) refl,
        over,
        soon,
        sleep-Same dev c1 c2 ticks polls m.timer t,
      )

  pub beep-runs :
      (m : Machine) (t : Trace)
      → (t' : Trace) × (beep m dev t ≡ (running m, t')) × Same dev c1 c2 t t'
  unfolding beep pcspkr_play
  beep-runs m t = let d = 1193180 / 500 in ((play_divisor d dev t).1, refl, play-Same dev c1 c2 d t)

  pub enumerate-runs :
      {cfg : Config} (bridge : IsHostBridge dev cfg) (m : Machine) (t : Trace)
      → (c : Canvas) × (v : Vmm) × (t' : Trace) × (enumerate img m dev t
          ≡ (running (record m { canvas = c; vmm = v }), t'))
        × Same dev c1 c2 t t'
  unfolding enumerate
  enumerate-runs bridge m t =
      let screen : Canvas × Ram = (m.canvas, m.vmm.ram) in
      let (s, e, n, s1, e1, shown) =
        pci_enumerate_and_log-counts img.dec_buf img.hex_buf bridge screen t in
      (
        s.screen.0,
        record (m.vmm) { ram = s.screen.1 },
        (pci_enumerate_and_log img.dec_buf img.hex_buf screen dev t).1,
        rw (enumerate, e) refl,
        enumerate-Same dev c1 c2 img.dec_buf img.hex_buf screen t,
      )

  keyboard-Fits : Fits (codes "Initalizing ps/2 keyboard..\n") []
  unfolding directive
  keyboard-Fits = omega arith

  -- The keyboard's line is opened beside the timer's.
  pub footer-runs :
      (m : Machine) (t : Trace)
      → dev t 0x21 ≡ 0xFE
      → (c : Canvas) × (v : Vmm) × (footer_init img m dev t
          ≡ (running (record m { canvas = c; vmm = v }), out8 0x21 0xFC ∷ in8 0x21 ∷ t))
  unfolding footer_init ps2_keyboard_init
  footer-runs m t mask =
      let (c, v, e) = say-runs img dev (codes "Initalizing ps/2 keyboard..\n") m t keyboard-Fits in
      (c, v, rw (footer_init, e, mask) refl)
