-- ===== src/System.antt =====
-- gnu-efi/bootloader/main.c calls `_start` of kernel/src/kernel.c: both programs on one memory.
pub mod Laws
pub mod Ground
pub mod Screen
mod Tests
use kess_os.Base.{ℕ, List}
use kess_os.Ram.{Ram}
use kess_os.Arch.Io.{Io, pure, ◌>>=◌}
use kess_os.Boot.Main.{Firmware, Entry, Booted, entered, efi_main}
use kess_os.Interrupts.Syscall.{SyscallRegArgs}
use kess_os.User.{ui_start}
use kess_os.Kernel.Start.{Image, Machine, Started, running, and_then}
use kess_os.Kernel.Run.{start}

-- How the machine comes up: it does not leave the boot loader, or the kernel has started.
pub data Up : Type 0 where
  in_loader : Booted → Up
  in_kernel : Started → Up

-- `kernel_entry(lfb, font, mem_info, rsdp, legacy_boot)` with the loader's memory. `statics` is the
-- kernel's state as its file has it.
unfoldable pub kernel_entry :
    Image → (fuel : ℕ) → (polls1 polls2 polls3 : List ℕ) → (statics : Machine) → Entry → Io Up
kernel_entry img fuel polls1 polls2 polls3 statics e =
    start img fuel e.lfb e.font e.mem_info e.rsdp e.legacy_boot polls1 polls2 polls3
      (record statics { vmm = record (statics.vmm) { ram = e.ram } })
    >>= λ s. pure (in_kernel s)

unfoldable pub power_on :
    Firmware
    → Image
    → (fuel : ℕ) → (polls1 polls2 polls3 : List ℕ) → (statics : Machine) → Ram
    → Io Up
power_on fw img fuel polls1 polls2 polls3 statics m = elim (efi_main fw m) [
  | entered e ↦ kernel_entry img fuel polls1 polls2 polls3 statics e
  | end ↦ pure (in_loader end)
]

module _ (img : Image) (entry regs : SyscallRegArgs) where
  -- `_context_switch` enters the user program. `regs` is the static of the system calls, and
  -- `entry` is what the registers hold.
  unfoldable pub enter_userspace : Machine → Io Started
  enter_userspace m =
      ui_start img.behind_syscalls img.dec_buf img.hex_buf entry
        (record { regs = regs; canvas = m.canvas; ram = m.vmm.ram })
      >>= λ s. pure (running (record m { canvas = s.canvas; vmm = record (m.vmm) { ram = s.ram } }))

  -- The user program after the start, where the machine got that far.
  unfoldable pub user : Up → Io Up
  user (in_loader r) = pure (in_loader r)
  user (in_kernel s) = and_then s enter_userspace >>= λ s'. pure (in_kernel s')
