-- ===== src/Boot.antt =====
-- gnu-efi/bootloader/main.c: the UEFI application that draws the boot menu, loads the kernel and
-- starts it. The firmware's services are parameters.
pub mod Menu
pub mod Elf
pub mod Rsdp
pub mod Font
pub mod Main
pub mod Sample
