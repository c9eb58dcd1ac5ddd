-- ===== src/Firmware/Acpi/Tests.antt =====
-- A firmware with two tables, the second of them a FADT.
use kess_os.Base.{ℕ, ◌+◌, ◌%◌, ◌<◌, ◌≡◌, ◌≢◌, ◌⊎◌, ◌==◌, if◌then◌else◌, none, some, refl, arith}
use kess_os.Ram.{Ram, load32}
use kess_os.Firmware.Acpi.{acpi_init, table_entry, header_length, count_entries}
use kess_os.Firmware.Acpi.Laws.{sum_bytes, Found, First, acpi_init-finds}

-- The root pointer at 0, the RSDT at 0x100 with entries 0x200 and 0x300, "FACP" at 0x40.
abbrev firmware : Ram
firmware x =
    if x == 17
    then 1
    else if x == 0x104
    then 44
    else if x == 0x125
    then 2
    else if x == 0x129
    then 3
    else if x == 0x40
    then b'F'
    else if x == 0x41
    then b'A'
    else if x == 0x42
    then b'C'
    else if x == 0x43
    then b'P'
    else if x == 0x300
    then b'F'
    else if x == 0x301
    then b'A'
    else if x == 0x302
    then b'C'
    else if x == 0x303
    then b'P'
    else if x == 0x304
    then 10
    else if x == 0x309
    then 220
    else 0

acpi_init-finds_example :
    let rsdt = load32 firmware (0 + 16) in
    let n = count_entries firmware rsdt in
    ((acpi_init 0x40 firmware 0 ≡ none) × ((j : ℕ) → j < n → ¬ Found firmware rsdt j))
    ⊎ ((i : ℕ) × First firmware rsdt n i
        × (let fadt = table_entry firmware rsdt i in
            let sum = sum_bytes firmware fadt (header_length firmware fadt) % 256 in
            ((sum ≡ 0)
              × (acpi_init 0x40 firmware 0
                  ≡ some (record { rsdt = rsdt; rsdt_entries = n; fadt = fadt })))
            ⊎ ((sum ≢ 0) × (acpi_init 0x40 firmware 0 ≡ none))))
acpi_init-finds_example =
    acpi_init-finds 0x40 firmware 0 (omega arith) (refl, (refl, (refl, (refl, tt))))
