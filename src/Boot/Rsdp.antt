-- ===== src/Boot/Rsdp.antt =====
-- gnu-efi/bootloader/main.c: the search for the ACPI root pointer. The firmware's configuration
-- table is given by two functions of an entry's number: what `CompareGuid` returns for its GUID and
-- the one of ACPI 2.0 (0 if they are equal), and its `VendorTable`. The loop indexes the table with
-- `i` and also moves its start, so it compares the GUID of entry `2 * i` and takes the table of
-- entry `i`; and it looks at the table when the GUIDs differ.
pub mod Laws
mod Tests
use kess_os.Base.{ℕ, zero, suc, ◌+◌, ◌*◌, ◌==◌, ◌&&◌, not, if◌then◌else◌}
use kess_os.Ram.{Ram}
use kess_os.Boot.Elf.{memcmp}

-- The loop at `i`; `magic` is the address of "RSD PTR ".
unfoldable pub rsdp_loop :
    (compare_guid : ℕ → ℕ) (vendor_table : ℕ → ℕ) (magic : ℕ) → Ram → (left i rsdp : ℕ) → ℕ
rsdp_loop compare_guid vendor_table magic m zero i rsdp = rsdp
rsdp_loop compare_guid vendor_table magic m (suc left) i rsdp =
    rsdp_loop compare_guid vendor_table magic m left (i + 1) (
      if not (compare_guid (i + i) == 0) && memcmp m magic (vendor_table i) 8 == 0
      then vendor_table i
      else rsdp)

-- 0 is `NULL`.
unfoldable pub rsdp_search :
    (compare_guid : ℕ → ℕ) (vendor_table : ℕ → ℕ) (magic : ℕ) → Ram → (entries : ℕ) → ℕ
rsdp_search compare_guid vendor_table magic m entries =
    rsdp_loop compare_guid vendor_table magic m entries 0 0
