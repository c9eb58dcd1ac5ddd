-- ===== src/Firmware/Acpi.antt =====
-- kernel/src/firmware/acpi/impl/acpi.c over memory. `facp` is the address of the literal "FACP".
-- The messages that `acpi_init` logs are left out.
pub mod Tables
pub mod Laws
mod Tests
use kess_os.Base.{
  ℕ, zero, suc, ◌+◌, ◌-◌, ◌*◌, ◌/◌, ◌%◌, ◌^◌, ◌==◌, Bool, Option, none, some, if◌then◌else◌,
}
use kess_os.Base.{u8, u32, u64}
use kess_os.Ram.{Ram, load32}
use kess_os.Util.Text.{strncmp}

-- `sizeof(acpi_header_t)`, which is packed.
abbrev pub acpi_header_size : ℕ
acpi_header_size = 4 + 4 + 1 + 1 + 6 + 8 + 4 + 4 + 4

-- `header.length` of the table at `p`.
abbrev pub header_length : Ram → (p : ℕ) → ℕ
header_length m p = load32 m (p + 4)

-- `rsdt->tables[i]`.
abbrev pub table_entry : Ram → (rsdt i : ℕ) → ℕ
table_entry m rsdt i = load32 m (rsdt + acpi_header_size + 4 * i)

-- The loop that both checksum functions have, at index `i`; `sum` is an `unsigned char`.
unfoldable pub sum_loop : Ram → (p : ℕ) → (left i sum : ℕ) → ℕ
sum_loop m p zero i sum = sum
sum_loop m p (suc left) i sum = sum_loop m p left (i + 1) (u8 (sum + m (p + i)))

unfoldable pub rsdt_valid : Ram → (rsdt : ℕ) → Bool
rsdt_valid m rsdt = sum_loop m rsdt (header_length m rsdt) 0 0 % 0x100 == 0

-- The loop of `locate_fadt` at index `i`: the table found.
unfoldable pub locate_loop : (facp : ℕ) → Ram → (rsdt : ℕ) → (left i : ℕ) → Option ℕ
locate_loop facp m rsdt zero i = none
locate_loop facp m rsdt (suc left) i =
    let rest = locate_loop facp m rsdt left (i + 1) in
    if strncmp m (table_entry m rsdt i) facp 4 == 0 then rest else some (table_entry m rsdt i)

unfoldable pub locate_fadt : (facp : ℕ) → Ram → (rsdt rsdt_entries : ℕ) → Option ℕ
locate_fadt facp m rsdt rsdt_entries = locate_loop facp m rsdt rsdt_entries 0

unfoldable pub is_fadt_valid : Ram → (fadt : ℕ) → Bool
is_fadt_valid m fadt = sum_loop m fadt (header_length m fadt) 0 0 % 0x100 == 0

-- The statics of the file.
pub record Acpi : Type 0 where
  pub rsdt : ℕ
  pub rsdt_entries : ℕ
  pub fadt : ℕ

-- The number of entries, as an `unsigned int`; the subtraction is one of `size_t`.
abbrev pub count_entries : Ram → (rsdt : ℕ) → ℕ
count_entries m rsdt = u32 (u64 (header_length m rsdt + 2 ^ 64 - acpi_header_size) / 4)

-- The tests of `acpi_init` after the search, on what it found; `none` is the halt.
unfoldable pub check_fadt : Ram → (rsdt rsdt_entries : ℕ) → Option ℕ → Option Acpi
check_fadt m rsdt rsdt_entries none = none
check_fadt m rsdt rsdt_entries (some fadt) =
    if is_fadt_valid m fadt
    then some (record { rsdt = rsdt; rsdt_entries = rsdt_entries; fadt = fadt })
    else none

-- The test of `rsdt_valid` names the function and does not call it: it never fails.
unfoldable pub acpi_init : (facp : ℕ) → Ram → (rsdp : ℕ) → Option Acpi
acpi_init facp m rsdp =
    let rsdt = load32 m (rsdp + 16) in
    let rsdt_entries = count_entries m rsdt in
    check_fadt m rsdt rsdt_entries (locate_fadt facp m rsdt rsdt_entries)
