-- ===== src/Arch.antt =====
-- kernel/src/arch: port I/O, the interrupt controllers, the memory map, paging.
pub mod Io
pub mod Pic
pub mod MemoryMap
pub mod Vmm
