-- ===== src/Drivers/Pci/Tests.antt =====
-- A machine with one function, and instances of the configuration-space theorems.
use kess_os.Base.{ℕ, ◌+◌, ◌*◌, ◌/◌, ◌%◌, ◌^◌, ◌≡◌, ◌==◌, ◌∷◌, [], if◌then◌else◌, refl, arith}
use kess_os.Arch.Io.{Device, Trace, out32}
use kess_os.Drivers.Pci.{
  pci_get_vendor_id, pci_get_device_id, pci_get_classid, pci_get_subclass_id, pci_get_prog_if,
  pci_get_revision_id, pci_get_bar0, pci_get_bar1,
}
use kess_os.Base.{some, codes}
use kess_os.Kernel.Log.{log, s_info, number}
use kess_os.Drivers.Video.Sample.{screen, zeros}
use kess_os.Drivers.Pci.Enumerate.{Scan, scan_buses, pci_enumerate_and_log}
use kess_os.Drivers.Pci.Enumerate.Laws.{buses_in, pci_enumerate_and_log-counts}
use kess_os.Drivers.Pci.Fields.{Config, IsHostBridge, pci_get-fields}

-- Every function is an AHCI controller.
abbrev ahci_space : Config
ahci_space bus slot func reg =
    if reg == 0 then 0x29228086 else if reg == 2 then 0x01060102 else 0xFEBF1000

abbrev selected : Trace → ℕ
selected (out32 p v ∷ t) = v % 256 / 4
selected _ = 0

abbrev machine : Device
machine t port = ahci_space 0 0 0 (selected t)

machine-IsHostBridge : IsHostBridge machine ahci_space
machine-IsHostBridge = record {
  word32 = λ b s f r. ground arith;
  answers = λ t bus slot func reg hb hs hf hr.
      let e : (2 ^ 31 + bus * 2 ^ 16 + slot * 2 ^ 11 + func * 2 ^ 8 + reg * 4) % 256 / 4 ≡ reg =
        omega arith in
      rw e refl;
}

pci_get-fields_example :
    ((pci_get_vendor_id 0 2 1 machine []).0 ≡ ahci_space 0 2 1 0 % 2 ^ 16)
    × ((pci_get_device_id 0 2 1 machine []).0 ≡ ahci_space 0 2 1 0 / 2 ^ 16)
    × ((pci_get_classid 0 2 1 machine []).0 ≡ ahci_space 0 2 1 2 / 2 ^ 24)
    × ((pci_get_subclass_id 0 2 1 machine []).0 ≡ ahci_space 0 2 1 2 / 2 ^ 16 % 256)
    × ((pci_get_prog_if 0 2 1 machine []).0 ≡ ahci_space 0 2 1 2 / 2 ^ 8 % 256)
    × ((pci_get_revision_id 0 2 1 machine []).0 ≡ ahci_space 0 2 1 2 % 256)
    × ((pci_get_bar0 0 2 1 machine []).0 ≡ ahci_space 0 2 1 4)
    × ((pci_get_bar1 0 2 1 machine []).0 ≡ ahci_space 0 2 1 5)
pci_get-fields_example =
    pci_get-fields machine-IsHostBridge 0 2 1 (omega arith) (omega arith) (omega arith) []

pci_enumerate_and_log-counts_example :
    let start : Scan = record { device_count = 0; tmp = 0; screen = (screen, zeros) } in
    (s : Scan) × ((pci_enumerate_and_log 0x100 0x200 (screen, zeros) machine []).0 ≡ some s)
    × (s.device_count ≡ buses_in ahci_space 255 0)
    × (s1 : Scan) × ((scan_buses 0x100 0x200 255 0 start machine []).0 ≡ some s1)
    × (log 0x100 0x200
          (codes "%d devices found!\n")
          s_info
          (number (buses_in ahci_space 255 0) ∷ [])
          s1.screen
        ≡ some s.screen)
pci_enumerate_and_log-counts_example =
    pci_enumerate_and_log-counts 0x100 0x200 machine-IsHostBridge (screen, zeros) []
