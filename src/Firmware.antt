-- ===== src/Firmware.antt =====
-- kernel/src/firmware.
pub mod Acpi
