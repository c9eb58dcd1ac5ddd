-- ===== src/Boot/Rsdp/Tests.antt =====
-- A firmware whose entry 0 has another GUID than the one of ACPI 2.0.
use kess_os.Base.{ℕ, ◌+◌, ◌==◌, if◌then◌else◌}
use kess_os.Ram.{Ram}

abbrev first_differs : ℕ → ℕ
first_differs i = if i == 0 then 1 else 0

abbrev tables : ℕ → ℕ
tables i = 0x1000 + i

abbrev zeros : Ram
zeros x = 0
