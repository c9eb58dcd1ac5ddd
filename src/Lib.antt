-- ===== src/Lib.antt =====
-- KessOS: a small 64-bit kernel that a UEFI boot loader starts.
--
-- The program. gnu-efi/bootloader/main.c loads the kernel and passes it the frame buffer, the font,
-- the firmware's memory map and the ACPI root pointer. kernel/src/kernel.c sets up the TSS, the
-- IDT, the interrupt controller, the timer and paging, scans the PCI bus and enters user space.
-- The drivers draw with stores to the frame buffer and talk to devices through ports; the timer's
-- interrupt counts ticks and runs the next thread.
--
-- The files, with the code they model (paths under kernel/src):
--   Base, Ram: lists over the native numbers, machine words, bit operations, and memory as a
--     function from addresses to bytes with little-endian loads and stores.
--   Util/Bytes: util/impl/mem.c. Util/Text: util/impl/string.c.
--   Arch/Io: arch/io/impl/io.c; a command returns its result and a longer trace of accesses, and
--     a device is a function from the trace so far and a port to a value.
--   Arch/Pic: arch/io/impl/legacy-pic.c. Arch/MemoryMap: arch/memory/impl/memory.c.
--   Arch/Vmm: arch/memory/impl/vmm.c. Entry has the processor's walk as a specification, Invariant
--     the well-formed tables, Pages the allocator, and the other children follow map_page from a
--     new table to the first 6 GB.
--   Proc/Thread, Proc/Lock, Proc/Tss: proc/impl/thread.c, lock.c and TSS.c.
--   Interrupts/Idt: interrupts/impl/IDT.c. Interrupts/Syscall: interrupts/syscall/impl/syscall.c.
--   Kernel/Log, Kernel/Dump: log of kernel.c, and debug/impl/log.c; Log/Renders is the text of a
--     format and its arguments, which Log/Written and Log/Refines follow. Kernel/Start: init of
--     kernel.c, which runs the components' operations in their order on one machine state;
--     Kernel/Run: _start with the enumeration, the sleeps and the tone.
--   Drivers/Video, Pit, Pcspkr, Keyboard, Pci: the files of drivers/ of those names
--     (FrameBuffer, PIT, pcspkr, Keyboard, pci); Pci/Enumerate is pci_enumerate_and_log.
--   Drivers/Ahci: drivers/ahci/config.h.
--   Firmware/Acpi: firmware/acpi/impl/acpi.c; its Tables: firmware/acpi/tables.h.
--   Boot/Menu, Elf, Font, Rsdp, Main: gnu-efi/bootloader/main.c (not under kernel/src); Main is
--     efi_main over all of them, Main/Frame says that drawing stays on the screen, and Main/Bootable
--     what a kernel needs to be booted.
--   User: userspace/ui.c (not under kernel/src), up to its endless loop.
--   System: the call of _start from efi_main, on one memory, and the user program after it;
--     System/Screen follows the screen to the end, for which Kernel/Run/Final has what _start
--     leaves. The modules named Kept say that the frame buffer stays the one that the loader
--     passed. The modules named Sample hold the machines of the tests.
--
-- Integers are natural numbers; where the source's type wraps, the model takes the remainder.
-- Statics are fields of a record that operations take and return, `snake_case` spells the source's
-- names. Loops with a bound recur on the rounds that are left. Fuel: strlen ends with more fuel
-- than characters; dec2str and hex2str have 10 and 8 digits at most, and 128 swaps serve any value
-- of the counter; map_page calls itself once for each new table, so one unit more than the pages that
-- are left is enough. The busy loop of pit_sleep takes the list of how many interrupts come
-- between two tests.
--
-- Not modelled: assembly (the GDT, the loads of cr3, the IDT and the task register, the exception
-- handlers, the gates, the context switch), and the gnu-efi library and the firmware, whose
-- services are parameters; so is the code that the words behind the table of system calls name. The instructions cli, sti and hlt leave the modelled
-- state alone, and timer interrupts come only while pit_sleep waits for them: the user program is
-- entered with the interrupt flag clear.
pub mod Base
pub mod Ram
pub mod Util
pub mod Arch
pub mod Proc
pub mod Interrupts
pub mod Drivers
pub mod Firmware
pub mod Kernel
pub mod Boot
pub mod User
pub mod System
