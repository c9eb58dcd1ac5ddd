-- ===== src/Interrupts/Syscall/Tests.antt =====
-- An instance of the theorem on system calls.
use kess_os.Base.{ℕ, ◌≤◌, ◌≡◌, ◌∷◌, [], ◌++◌, u32}
use kess_os.Arch.Io.{Io, Device, outportb, ◌>>◌, pure, out8}
use kess_os.Drivers.Video.Sample.{screen, zeros}
use kess_os.Drivers.Video.{kwrite, draw_square}
use kess_os.Kernel.Log.{s_info, status_prefix}
use kess_os.Interrupts.Syscall.{SyscallRegArgs, Os, hello_text, syscall_dispatcher}
use kess_os.Interrupts.Syscall.Laws.{syscall_dispatcher-serves}

abbrev silent : Device
silent t port = 0

-- Behind the table stands code that beeps.
abbrev beeps : ℕ → Os → Io Os
beeps rax s = do outportb 0x61 3; pure s

-- The bar that the user program draws.
abbrev bar : SyscallRegArgs
bar = record { r14 = 0; r13 = 0; r12 = 500; r11 = 30; r10 = 0xFFFFFF }

abbrev idle : Os
idle = record {
  regs = record { r14 = 0; r13 = 0; r12 = 0; r11 = 0; r10 = 0 };
  canvas = screen;
  ram = zeros;
}

syscall_dispatcher-serves_example :
    let r = syscall_dispatcher beeps 0x100 0x200 2 bar idle silent [] in
    let w = kwrite (status_prefix s_info ++ hello_text) 0x00FF00 (screen, zeros) in
    (3 ≤ 2 → r ≡ (idle, []))
    × (◌≡◌ {A = ℕ} 2 0 → r ≡ (record idle { regs = bar }, out8 0x64 0xFE ∷ []))
    × (◌≡◌ {A = ℕ} 2 1 → r ≡ (record idle { regs = bar; canvas = w.0; ram = w.1 }, []))
    × (◌≡◌ {A = ℕ} 2 2
        → r ≡ (
          record idle {
            regs = bar;
            ram = draw_square screen (u32 0) (u32 0) (u32 500) (u32 30) (u32 0xFFFFFF) zeros;
          },
          [],
        ))
syscall_dispatcher-serves_example = syscall_dispatcher-serves beeps 0x100 0x200 2 bar idle silent []
