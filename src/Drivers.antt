-- ===== src/Drivers.antt =====
-- kernel/src/drivers.
pub mod Video
pub mod Ahci
pub mod Pit
pub mod Pcspkr
pub mod Keyboard
pub mod Pci
