-- ===== src/Interrupts.antt =====
-- kernel/src/interrupts: the descriptor table and the system calls.
pub mod Idt
pub mod Syscall
