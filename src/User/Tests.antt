-- ===== src/User/Tests.antt =====
-- An instance of the theorem on the user program.
use kess_os.Base.{ℕ, ◌≤◌, ◌<◌, ◌≡◌, ◌⊎◌, [], ◌++◌, arith}
use kess_os.Ram.{load32}
use kess_os.Arch.Io.{Io, Device, outportb, ◌>>◌, pure}
use kess_os.Drivers.Video.Sample.{screen, zeros}
use kess_os.Drivers.Video.{kwrite}
use kess_os.Drivers.Video.Square.{pixel}
use kess_os.Kernel.Log.{s_info, status_prefix}
use kess_os.Interrupts.Syscall.{Os, hello_text}
use kess_os.User.{ui_start}
use kess_os.User.Laws.{ui_start-paints}

abbrev beeps : ℕ → Os → Io Os
beeps rax s = do outportb 0x61 3; pure s

abbrev silent : Device
silent t port = 0

abbrev fresh : Os
fresh = record {
  regs = record { r14 = 0; r13 = 0; r12 = 0; r11 = 0; r10 = 0 };
  canvas = screen;
  ram = zeros;
}

-- The last pixel of the bar.
ui_start-paints_example :
    let r = ui_start beeps 0x100 0x200 fresh.regs fresh silent [] in
    let w = kwrite (status_prefix s_info ++ hello_text) 0x00FF00 (screen, zeros) in
    (r.1 ≡ [])
    × (r.0.canvas ≡ w.0)
    × (w.0.lfb ≡ screen.lfb)
    × (499 < 500 → 29 < 30 → load32 r.0.ram (pixel screen.lfb 499 29) ≡ 0xFFFFFF)
    × ((500 ≤ 499) ⊎ (30 ≤ 29)
        → load32 r.0.ram (pixel screen.lfb 499 29) ≡ load32 w.1 (pixel screen.lfb 499 29))
ui_start-paints_example =
    ui_start-paints beeps 0x100 0x200 fresh.regs fresh silent [] (omega arith) (omega arith) 499 29
      (omega arith)
