-- ===== src/Drivers/Pci/Fields.antt =====
-- What the getters return on a machine whose host bridge answers as the PCI specification says.
use kess_os.Base.{ℕ, ◌+◌, ◌*◌, ◌/◌, ◌%◌, ◌^◌, ◌<◌, ◌≡◌, bit_and, bit_or, refl, arith, ◌∙◌, ◌∷◌}
use kess_os.Base.{bit_and_mask, bit_and_shifted, bit_or_fields, u32}
use kess_os.Arch.Io.{Trace, Device, out32}
use kess_os.Drivers.Pci.{
  address_of, pci_read_word, pci_get_vendor_id, pci_get_device_id, pci_get_classid,
  pci_get_subclass_id, pci_get_prog_if, pci_get_revision_id, pci_get_bar0, pci_get_bar1,
}
use kess_os.Drivers.Pci.Address.{address_of-fields}

-- The configuration space: the 32-bit register `reg` of each function.
abbrev pub Config : Type 0
Config = (bus slot func reg : ℕ) → ℕ

-- A read of the data port gives the register that the last write to the address port selects.
pub record IsHostBridge (dev : Device) (cfg : Config) : Type 0 where
  pub word32 : (bus slot func reg : ℕ) → cfg bus slot func reg < 2 ^ 32
  pub answers :
      (t : Trace) (bus slot func reg : ℕ)
      → bus < 256
      → slot < 32
      → func < 8
      → reg < 64
      → dev (out32 0xCF8 (2 ^ 31 + bus * 2 ^ 16 + slot * 2 ^ 11 + func * 2 ^ 8 + reg * 4) ∷ t) 0xCFC
        ≡ cfg bus slot func reg

module _ {dev : Device} {cfg : Config} (bridge : IsHostBridge dev cfg) (bus slot func : ℕ)
    (hb : bus < 256) (hs : slot < 32) (hf : func < 8) where
  read_dword :
      (t : Trace) (offset : ℕ)
      → offset < 256
      → dev (out32 0xCF8 (u32 (address_of bus slot func offset)) ∷ t) 0xCFC
        ≡ cfg bus slot func (offset / 4)
  read_dword t offset ho =
      let wrap : (2 ^ 31 + bus * 2 ^ 16 + slot * 2 ^ 11 + func * 2 ^ 8 + offset / 4 * 4) % 2 ^ 32
          ≡ 2 ^ 31 + bus * 2 ^ 16 + slot * 2 ^ 11 + func * 2 ^ 8 + offset / 4 * 4 =
        omega arith in
      rw (address_of-fields bus slot func offset hb hs hf ho, wrap)
        (bridge.answers t bus slot func (offset / 4) hb hs hf (omega arith))

  low_half :
      (t : Trace) (offset : ℕ)
      → offset < 256
      → offset % 4 ≡ 0
      → (pci_read_word bus slot func offset dev t).0 ≡ cfg bus slot func (offset / 4) % 2 ^ 16
  unfolding pci_read_word
  low_half t offset ho even =
      let bit : bit_and offset 2 ≡ 0 =
        omega (arith, bit_and_shifted 1 offset 1, bit_and_mask 1 (offset / 2)) in
      rw (bit, read_dword t offset ho)
        (omega (
          arith,
          bridge.word32 bus slot func (offset / 4),
          bit_and_mask 16 (cfg bus slot func (offset / 4) % 2 ^ 32 / 2 ^ (0 * 8)),
        ))

  high_half :
      (t : Trace) (offset : ℕ)
      → offset < 256
      → offset % 4 ≡ 2
      → (pci_read_word bus slot func offset dev t).0 ≡ cfg bus slot func (offset / 4) / 2 ^ 16
  unfolding pci_read_word
  high_half t offset ho odd =
      let bit : bit_and offset 2 ≡ 2 =
        omega (arith, bit_and_shifted 1 offset 1, bit_and_mask 1 (offset / 2)) in
      rw (bit, read_dword t offset ho)
        (omega (
          arith,
          bridge.word32 bus slot func (offset / 4),
          bit_and_mask 16 (cfg bus slot func (offset / 4) % 2 ^ 32 / 2 ^ (2 * 8)),
        ))

  byte_high : (w : ℕ) → bit_and w 0xFF00 / 2 ^ 8 % 2 ^ 8 ≡ w / 256 % 256
  byte_high w = omega (arith, bit_and_shifted 8 w 255, bit_and_mask 8 (w / 256))

  byte_low : (w : ℕ) → bit_and w 0x00FF % 2 ^ 8 ≡ w % 256
  byte_low w = omega (arith, bit_and_mask 8 w)

  joined : (w : ℕ) → w < 2 ^ 32 → bit_or (w / 2 ^ 16 * 2 ^ 16 % 2 ^ 32) (w % 2 ^ 16) ≡ w
  joined w h =
      let wrap : w / 2 ^ 16 * 2 ^ 16 % 2 ^ 32 ≡ w / 2 ^ 16 * 2 ^ 16 = omega arith in
      rw wrap (bit_or_fields 16 (w / 2 ^ 16) (w % 2 ^ 16) (omega arith) ∙ omega arith)

  -- Each getter returns its field of the function's configuration header: vendor and device from
  -- register 0, revision, programming interface, subclass and class from register 2, and the
  -- whole 32-bit base address registers 4 and 5, each put together from two reads.
  pub pci_get-fields :
      (t : Trace)
      → let reg = cfg bus slot func in
        ((pci_get_vendor_id bus slot func dev t).0 ≡ reg 0 % 2 ^ 16)
        × ((pci_get_device_id bus slot func dev t).0 ≡ reg 0 / 2 ^ 16)
        × ((pci_get_classid bus slot func dev t).0 ≡ reg 2 / 2 ^ 24)
        × ((pci_get_subclass_id bus slot func dev t).0 ≡ reg 2 / 2 ^ 16 % 256)
        × ((pci_get_prog_if bus slot func dev t).0 ≡ reg 2 / 2 ^ 8 % 256)
        × ((pci_get_revision_id bus slot func dev t).0 ≡ reg 2 % 256)
        × ((pci_get_bar0 bus slot func dev t).0 ≡ reg 4)
        × ((pci_get_bar1 bus slot func dev t).0 ≡ reg 5)
  unfolding pci_get_vendor_id pci_get_device_id pci_get_classid pci_get_subclass_id pci_get_prog_if
      pci_get_revision_id pci_get_bar0 pci_get_bar1
  pci_get-fields t =
      let w2 = bridge.word32 bus slot func 2 in
      (
        low_half t 0 (omega arith) refl,
        high_half t 2 (omega arith) refl,
        rw (high_half t 0xA (omega arith) refl)
            (omega (arith, w2, byte_high (cfg bus slot func 2 / 2 ^ 16))),
        rw (high_half t 0xA (omega arith) refl) (byte_low _),
        rw (low_half t 0x8 (omega arith) refl)
            (omega (arith, byte_high (cfg bus slot func 2 % 2 ^ 16))),
        rw (low_half t 0x8 (omega arith) refl)
            (omega (arith, byte_low (cfg bus slot func 2 % 2 ^ 16))),
        rw (low_half t 0x10 (omega arith) refl, high_half _ 0x12 (omega arith) refl)
            (joined _ (bridge.word32 bus slot func 4)),
        rw (low_half t 0x14 (omega arith) refl, high_half _ 0x16 (omega arith) refl)
            (joined _ (bridge.word32 bus slot func 5)),
      )
