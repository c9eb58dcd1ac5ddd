-- ===== src/Interrupts/Syscall.antt =====
-- kernel/src/interrupts/syscall/impl/syscall.c. `dec_buf` and `hex_buf` are the buffers of `log`.
pub mod Laws
mod Tests
use kess_os.Base.{ℕ, ◌∷◌, [], leb, if◌then◌else◌, List, Option, none, some, get_elem?, u32}
use kess_os.Ram.{Ram}
use kess_os.Arch.Io.{Io, pure, ◌>>=◌, ◌>>◌, outportb}
use kess_os.Drivers.Video.{Canvas, draw_square}
use kess_os.Kernel.Log.{log, s_info}

abbrev pub syscall_count : ℕ
syscall_count = 3

pub record SyscallRegArgs : Type 0 where
  pub r14 : ℕ
  pub r13 : ℕ
  pub r12 : ℕ
  pub r11 : ℕ
  pub r10 : ℕ

-- What the calls work on: the static `regs`, the kernel's canvas, and memory.
pub record Os : Type 0 where
  pub regs : SyscallRegArgs
  pub canvas : Canvas
  pub ram : Ram

-- "Hello syscall!\n".
abbrev pub hello_text : List ℕ
hello_text =
    b'H' ∷ b'e' ∷ b'l' ∷ b'l' ∷ b'o' ∷ 0x20 ∷ b's' ∷ b'y' ∷ b's' ∷ b'c' ∷ b'a' ∷ b'l' ∷ b'l' ∷ b'!'
    ∷ 0x0A ∷ []

unfoldable pub sys_reboot : Os → Io Os
sys_reboot s = do outportb 0x64 0xFE; pure s

-- `log` returns nothing only for a format with directives, which this one has not.
unfoldable pub sys_hello : (dec_buf hex_buf : ℕ) → Os → Io Os
sys_hello dec_buf hex_buf s = elim (log dec_buf hex_buf hello_text s_info [] (s.canvas, s.ram)) [
  | none ↦ pure s
  | some r ↦ pure (record s { canvas = r.0; ram = r.1 })
]

unfoldable pub sys_draw_square : Os → Io Os
sys_draw_square s = pure (record s {
  ram =
      draw_square s.canvas (u32 s.regs.r14) (u32 s.regs.r13) (u32 s.regs.r12) (u32 s.regs.r11)
        (u32 s.regs.r10) s.ram;
})

abbrev pub syscall_table : (dec_buf hex_buf : ℕ) → List (Os → Io Os)
syscall_table dec_buf hex_buf = sys_reboot ∷ sys_hello dec_buf hex_buf ∷ sys_draw_square ∷ []

-- `behind` is the code that an entry behind the table would name: memory that is not the source's.
unfoldable pub syscall_dispatcher :
    (behind : ℕ → Os → Io Os) (dec_buf hex_buf rax : ℕ) → (args : SyscallRegArgs) → Os → Io Os
syscall_dispatcher behind dec_buf hex_buf rax args s =
    if leb syscall_count rax then pure s else elim (get_elem? (syscall_table dec_buf hex_buf) rax) [
      | none ↦ behind rax (record s { regs = args })
      | some syscall ↦ syscall (record s { regs = args })
    ]
