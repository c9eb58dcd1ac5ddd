-- ===== src/Interrupts/Syscall/Laws.antt =====
-- What a system call does to the registers, the screen and the ports.
use kess_os.Base.{ℕ, ◌≤◌, ◌≡◌, ◌∷◌, [], ◌++◌, leb, true, u32, refl, arith}
use kess_os.Arch.Io.{Io, Device, Trace, out8}
use kess_os.Drivers.Video.{kwrite, draw_square}
use kess_os.Kernel.Log.{s_info, status_prefix}
use kess_os.Kernel.Log.Laws.{IsPlain, log-kwrite}
use kess_os.Interrupts.Syscall.{
  SyscallRegArgs, Os, hello_text, sys_reboot, sys_hello, sys_draw_square, syscall_dispatcher,
}

hello_text-IsPlain : IsPlain hello_text
hello_text-IsPlain = ground arith

greets :
    (dec_buf hex_buf : ℕ) (s : Os) (dev : Device) (t : Trace)
    → let r = kwrite (status_prefix s_info ++ hello_text) 0x00FF00 (s.canvas, s.ram) in
      sys_hello dec_buf hex_buf s dev t ≡ (record s { canvas = r.0; ram = r.1 }, t)
unfolding sys_hello
greets dec_buf hex_buf s dev t =
    rw
      (
        sys_hello,
        log-kwrite dec_buf hex_buf hello_text s_info [] (s.canvas, s.ram) hello_text-IsPlain,
      )
      refl

-- A number of 3 and above does nothing at all, whatever code the words behind the table name: the
-- table is not read. Call 0 writes the reset command to the keyboard
-- controller and call 1 writes its greeting on the canvas, each with the new arguments in `regs`;
-- call 2 draws the square that the arguments name, cut to 32 bits, and moves no cursor.
pub syscall_dispatcher-serves :
    (behind : ℕ → Os → Io Os) (dec_buf hex_buf rax : ℕ) (args : SyscallRegArgs) (s : Os)
    (dev : Device) (t : Trace)
    → let r = syscall_dispatcher behind dec_buf hex_buf rax args s dev t in
      let w = kwrite (status_prefix s_info ++ hello_text) 0x00FF00 (s.canvas, s.ram) in
      (3 ≤ rax → r ≡ (s, t))
      × (rax ≡ 0 → r ≡ (record s { regs = args }, out8 0x64 0xFE ∷ t))
      × (rax ≡ 1 → r ≡ (record s { regs = args; canvas = w.0; ram = w.1 }, t))
      × (rax ≡ 2
          → r ≡ (
            record s {
              regs = args;
              ram =
                  draw_square s.canvas
                    (u32 args.r14)
                    (u32 args.r13)
                    (u32 args.r12)
                    (u32 args.r11)
                    (u32 args.r10)
                    s.ram;
            },
            t,
          ))
unfolding syscall_dispatcher sys_reboot sys_draw_square
syscall_dispatcher-serves behind dec_buf hex_buf rax args s dev t = (
  (λ h. let test : leb 3 rax ≡ true = ground arith in rw test refl),
  (λ h. rw h refl),
  (λ h. rw h (greets dec_buf hex_buf (record s { regs = args }) dev t)),
  (λ h. rw h refl),
)
