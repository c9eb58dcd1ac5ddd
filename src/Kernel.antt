-- ===== src/Kernel.antt =====
-- kernel/src/kernel.c.
pub mod Log
pub mod Dump
pub mod Start
pub mod Run
pub mod Sample
