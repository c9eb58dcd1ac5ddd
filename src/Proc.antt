-- ===== src/Proc.antt =====
-- kernel/src/proc: the task-state segment, the thread table and the lock.
pub mod Thread
pub mod Lock
pub mod Tss
