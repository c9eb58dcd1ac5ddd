-- ===== src/Kernel/Run.antt =====
-- kernel/src/kernel.c: `footer_init` and `_start` up to the jump to user space.
pub mod Quiet
pub mod Ends
pub mod Kept
pub mod Final
pub mod Steps
pub mod Laws
mod Tests
use kess_os.Base.{ℕ, List, codes, none, some}
use kess_os.Arch.Io.{Io, pure, ◌>>=◌, ◌>>◌}
use kess_os.Arch.MemoryMap.{Meminfo}
use kess_os.Drivers.Video.{Framebuffer, Psf1Font, clear_screen}
use kess_os.Drivers.Pit.{pit_sleep}
use kess_os.Drivers.Pcspkr.{pcspkr_play, pcspkr_shutup}
use kess_os.Drivers.Keyboard.{ps2_keyboard_init}
use kess_os.Drivers.Pci.Enumerate.{pci_enumerate_and_log}
use kess_os.Kernel.Start.{
  Image, Machine, Started, running, division_error, no_message, asleep, and_then, say, init,
}

-- The rest of the start, where the interrupts that come during a sleep are given.
unfoldable pub sleep : (ticks : ℕ) (polls : List ℕ) → Machine → Io Started
sleep ticks polls m = pit_sleep ticks polls m.timer >>= λ r.
    pure (elim r [ none ↦ asleep | some timer ↦ running (record m { timer = timer }) ])

unfoldable pub blank_screen : Machine → Machine
blank_screen m =
    let r = clear_screen 0x000000 (m.canvas, m.vmm.ram) in
    record m { canvas = r.0; vmm = record (m.vmm) { ram = r.1 } }

unfoldable pub beep : Machine → Io Started
beep m = elim (pcspkr_play 500) [ none ↦ pure division_error | some io ↦ io >> pure (running m) ]

module _ (img : Image) where
  unfoldable pub footer_init : Machine → Io Started
  footer_init m = say img (codes "Initalizing ps/2 keyboard..\n") m >>= λ s.
      and_then s λ m'. (ps2_keyboard_init >> pure (running m'))

  unfoldable pub enumerate : Machine → Io Started
  enumerate m = pci_enumerate_and_log img.dec_buf img.hex_buf (m.canvas, m.vmm.ram) >>= λ r.
      pure (elim r [
        | none ↦ no_message
        | some scan ↦
            running
              (record m { canvas = scan.screen.0; vmm = record (m.vmm) { ram = scan.screen.1 } })
      ])

  -- `_start` after `init`, with the interrupts that come during its three sleeps.
  unfoldable pub after_init : (polls1 polls2 polls3 : List ℕ) → Machine → Io Started
  after_init polls1 polls2 polls3 m = enumerate m >>= λ s1. and_then s1 λ m1.
      sleep 200 polls1 m1 >>= λ s2. and_then s2 λ m2. sleep 150 polls2 m2 >>= λ s3.
      and_then s3 λ m3. beep (blank_screen m3) >>= λ s4.
      and_then s4
        λ m4. sleep 25 polls3 m4 >>= λ s5. and_then s5 λ m5. (pcspkr_shutup >> footer_init m5)

  unfoldable pub start :
      (fuel : ℕ)
      → Framebuffer
      → Psf1Font
      → Meminfo
      → (rsdp legacy_mode : ℕ) → (polls1 polls2 polls3 : List ℕ) → Machine
      → Io Started
  start fuel lfb font meminfo rsdp legacy_mode polls1 polls2 polls3 m =
      init img fuel meminfo rsdp (record m {
        canvas = record (m.canvas) { font = font; lfb = lfb };
        legacy_mode_enabled = legacy_mode;
      })
      >>= λ s1. and_then s1 (after_init polls1 polls2 polls3)
