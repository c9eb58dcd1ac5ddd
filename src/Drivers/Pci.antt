-- ===== src/Drivers/Pci.antt =====
-- kernel/src/drivers/pci/pci.h and impl/pci.c: the configuration space through two ports.
pub mod Address
pub mod Fields
pub mod Enumerate
mod Tests
use kess_os.Base.{ℕ, zero, suc, ◌+◌, ◌*◌, ◌==◌, ltb, bit_and, bit_or, Bool, not, if◌then◌else◌}
use kess_os.Base.{u8, u16, u32, ◌<<<◌, ◌>>>◌, List, [], ◌∷◌, ◌++◌, get_or}
use Prim.Native.String.{String}
use kess_os.Arch.Io.{Io, pure, ◌>>=◌, ◌>>◌, inportl, outportl}

abbrev pub config_address : ℕ
config_address = 0xCF8

abbrev pub config_data : ℕ
config_data = 0xCFC

abbrev pub pci_highest_bus : ℕ
pci_highest_bus = 255

abbrev pub pci_highest_slot : ℕ
pci_highest_slot = 32

abbrev pub pci_highest_func : ℕ
pci_highest_func = 8

pub record PciDevice : Type 0 where
  pub bus : ℕ
  pub slot : ℕ
  pub func : ℕ
  pub valid : ℕ

-- The enumeration has no entry for encryption controllers, which the table of names below has.
pub data BaseClass : Type 0 where
  not_finalized mass_storage_controller network_controller display_controller : BaseClass
  multi_media_device memory_controller bridge_device scc base_system_peripherals : BaseClass
  input_devices docking_stations processors serial_bus_controllers : BaseClass
  wireless_controller intelligent_io_controller satellite_communication_controllers : BaseClass
  dasp_controller processing_acceslerators ne reserved : BaseClass

abbrev pub base_class_types : List String
base_class_types =
    "NOT_FINALIZED" ∷ "MASS_STORAGE_CONTROLLER" ∷ "NETWORK_CONTROLLER" ∷ "DISPLAY_CONTROLLER"
    ∷ "MULTI_MEDIA_DEVICE" ∷ "MEMORY_CONTROLLER" ∷ "BRIDGE_DEVICE" ∷ "SCC"
    ∷ "BASE_SYSTEM_PERIPHERALS" ∷ "INPUT_DEVICES" ∷ "DOCKING_STATIONS" ∷ "PROCESSORS"
    ∷ "SERIAL_BUS_CONTROLLERS" ∷ "WIRELESS_CONTROLLER" ∷ "INTELLIGENT_IO_CONTROLLER"
    ∷ "SATELLITE_COMMUNICATION_CONTROLLERS" ∷ "ENCRYPTION/DECRYPTION CONTROLLERS"
    ∷ "DASP_CONTROLLER" ∷ "PROCESSING_ACCELERATORS" ∷ "NE" ∷ "RESERVED" ∷ "INVALID" ∷ []

abbrev pub vendor_is_valid : (vendor_id : ℕ) → Bool
vendor_is_valid vendor_id = not (vendor_id == 0xFFFF)

-- The exported function of the same body.
abbrev pub pci_vendor_is_valid : (vendor_id : ℕ) → Bool
pci_vendor_is_valid vendor_id = not (vendor_id == 0xFFFF)

abbrev pub address_of : (bus slot func offset : ℕ) → ℕ
address_of bus slot func offset = u32 (
    bit_or
      (bit_or (bit_or (bit_or (u32 (bus <<< 16)) (u32 (slot <<< 11))) (func <<< 8))
        (bit_and offset 0xFC))
      0x80000000)

unfoldable pub pci_read_word : (bus slot func offset : ℕ) → Io ℕ
pci_read_word bus slot func offset = do
  outportl config_address (address_of bus slot func offset)
  dat ← inportl config_data
  pure (u16 (bit_and (dat >>> (bit_and offset 2 * 8)) 0xFFFF))

unfoldable pub pci_get_vendor_id : (bus slot func : ℕ) → Io ℕ
pci_get_vendor_id bus slot func = pci_read_word bus slot func 0x0

unfoldable pub pci_get_device_id : (bus slot func : ℕ) → Io ℕ
pci_get_device_id bus slot func = pci_read_word bus slot func 0x2

unfoldable pub pci_get_classid : (bus slot func : ℕ) → Io ℕ
pci_get_classid bus slot func = do
  word ← pci_read_word bus slot func 0xA
  pure (u8 (bit_and word 0xFF00 >>> 8))

unfoldable pub pci_get_subclass_id : (bus slot func : ℕ) → Io ℕ
pci_get_subclass_id bus slot func = do
  word ← pci_read_word bus slot func 0xA
  pure (u8 (bit_and word 0x00FF))

unfoldable pub pci_get_prog_if : (bus slot func : ℕ) → Io ℕ
pci_get_prog_if bus slot func = do
  word ← pci_read_word bus slot func 0x8
  pure (u8 (bit_and word 0xFF00 >>> 8))

unfoldable pub pci_get_revision_id : (bus slot func : ℕ) → Io ℕ
pci_get_revision_id bus slot func = do
  word ← pci_read_word bus slot func 0x8
  pure (u8 (bit_and word 0x00FF))

-- `get_bar0_low`, `get_bar0_high` and the two of the second register differ in the offset only.
abbrev pub get_bar0_low : (bus slot func : ℕ) → Io ℕ
get_bar0_low bus slot func = pci_read_word bus slot func 0x10

abbrev pub get_bar0_high : (bus slot func : ℕ) → Io ℕ
get_bar0_high bus slot func = pci_read_word bus slot func 0x12

abbrev pub get_bar1_low : (bus slot func : ℕ) → Io ℕ
get_bar1_low bus slot func = pci_read_word bus slot func 0x14

abbrev pub get_bar1_high : (bus slot func : ℕ) → Io ℕ
get_bar1_high bus slot func = pci_read_word bus slot func 0x16

unfoldable pub pci_get_bar0 : (bus slot func : ℕ) → Io ℕ
pci_get_bar0 bus slot func = do
  low ← get_bar0_low bus slot func
  high ← get_bar0_high bus slot func
  pure (bit_or (u32 (high <<< 16)) low)

unfoldable pub pci_get_bar1 : (bus slot func : ℕ) → Io ℕ
pci_get_bar1 bus slot func = do
  low ← get_bar1_low bus slot func
  high ← get_bar1_high bus slot func
  pure (bit_or (u32 (high <<< 16)) low)
