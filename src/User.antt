-- ===== src/User.antt =====
-- userspace/ui.c: the user program. It runs with interrupts off, since `_context_switch` of
-- kernel/src/proc/asm/TSS.asm gives it flags of zero, so nothing but its own system calls changes
-- the state.
pub mod Laws
mod Tests
use kess_os.Base.{ℕ}
use kess_os.Arch.Io.{Io, ◌>>=◌}
use kess_os.Interrupts.Syscall.{SyscallRegArgs, Os, syscall_dispatcher}

-- The registers of the second call, which draws "a little bar".
abbrev pub bar : SyscallRegArgs
bar = record { r14 = 0; r13 = 0; r12 = 500; r11 = 30; r10 = 0xFFFFFF }

-- `ui_start` up to its `while (1)`, which it never leaves. `entry` is what the registers hold on
-- entry, and the gate passes on.
unfoldable pub ui_start :
    (behind : ℕ → Os → Io Os) (dec_buf hex_buf : ℕ) (entry : SyscallRegArgs) → Os → Io Os
ui_start behind dec_buf hex_buf entry s =
    syscall_dispatcher behind dec_buf hex_buf 0x1 entry s
    >>= syscall_dispatcher behind dec_buf hex_buf 0x2 bar
