-- ===== src/Boot/Elf.antt =====
-- gnu-efi/bootloader/main.c: `memcmp`, the test of the kernel's ELF header and the loop that loads
-- its segments. The offsets and constants are those of the ELF-64 format.
pub mod Laws
pub mod Segments
mod Tests
use kess_os.Base.{ℕ, zero, suc, ◌+◌, ◌-◌, ◌^◌, ◌==◌, ltb, ◌||◌, not, Bool, if◌then◌else◌, u32}
use kess_os.Ram.{Ram, load, load32, load64}

-- The loop of `memcmp`; -1 is the 32-bit pattern.
unfoldable pub memcmp : Ram → (aptr bptr n : ℕ) → ℕ
memcmp m aptr bptr zero = 0
memcmp m aptr bptr (suc n) =
    let rest = memcmp m (aptr + 1) (bptr + 1) n in
    if ltb (m aptr) (m bptr) then 2 ^ 32 - 1 else if ltb (m bptr) (m aptr) then 1 else rest

-- The condition for "Kernel ELF header bad!"; `elf_mag` is the address of the four magic bytes.
unfoldable pub header_bad : (elf_mag : ℕ) → Ram → (header : ℕ) → Bool
header_bad elf_mag m header =
    not (memcmp m header elf_mag 4 == 0)
    || not (m (header + 4) == 2)
    || not (load 2 m (header + 16) == 2)
    || not (load 2 m (header + 18) == 62)
    || not (load32 m (header + 20) == 1)

-- The loop over the program headers. `read position size address` is what `SetPosition` and `Read`
-- of the kernel's file do to memory. `AllocatePages` is asked for the segment's own address, and
-- its status is not looked at.
unfoldable pub load_segments :
    (read : (position size address : ℕ) → Ram → Ram) → (phentsize : ℕ) → (left phdr : ℕ) → Ram → Ram
load_segments read phentsize zero phdr m = m
load_segments read phentsize (suc left) phdr m =
    load_segments read phentsize left (phdr + phentsize) (
      if load32 m phdr == 1
      then read (load64 m (phdr + 8)) (load64 m (phdr + 32)) (load64 m (phdr + 24)) m
      else m)
