-- ===== src/Drivers/Pci/Enumerate.antt =====
-- kernel/src/drivers/pci/impl/pci.c: `pci_enumerate_and_log`. It reads the configuration space
-- through the ports and writes on the canvas; `none` stands where `log` has none, or where the name
-- of a class would be read behind the table.
pub mod Laws
pub mod Loops
pub mod Kept
use kess_os.Base.{ℕ, zero, suc, ◌+◌, ◌==◌, ltb, if◌then◌else◌, List, [], ◌∷◌, map, codes}
use kess_os.Base.{Option, none, some, get_elem?, u32, u64}
use kess_os.Ram.{Ram}
use kess_os.Arch.Io.{Io, pure, ◌>>=◌}
use kess_os.Drivers.Video.{Canvas, clear_screen}
use kess_os.Drivers.Pci.{
  base_class_types, vendor_is_valid, pci_read_word, pci_get_classid, pci_get_device_id,
}
use kess_os.Kernel.Log.{log, s_info, text, number}

-- The variables of the function, with the screen.
pub record Scan : Type 0 where
  pub device_count : ℕ
  pub tmp : ℕ
  pub screen : Canvas × Ram

abbrev pub device_format : List ℕ
device_format = codes "Device found with bus %d, slot %d, device ID %x, type: %s\n"

-- `baseclass_type`: the class is read again to find its name.
unfoldable pub baseclass_type : (bus slot func : ℕ) → Io (Option (List ℕ))
baseclass_type bus slot func = pci_get_classid bus slot func >>= λ classid.
    if ltb 0x13 classid
    then pure (some (codes "RESERVED"))
    else pci_get_classid bus slot func >>= λ again.
        pure (get_elem? (map codes base_class_types) again)

-- Continue with what was found.
abbrev pub and_then : {A B : Type 0} → Option A → (A → Io (Option B)) → Io (Option B)
and_then none k = pure none
and_then (some a) k = k a

module _ (dec_buf hex_buf : ℕ) where
  -- The message for a device, and the two counts.
  unfoldable pub found_device : (bus slot func : ℕ) → Scan → (baseclass : List ℕ) → Io (Option Scan)
  found_device bus slot func s baseclass = do
    device ← pci_get_device_id bus slot func
    and_then
        (log dec_buf hex_buf device_format s_info
          (number bus ∷ number slot ∷ number device ∷ text baseclass ∷ []) s.screen)
        λ screen. pure (
          some (record {
            device_count = u64 (s.device_count + 1);
            tmp = u64 (s.tmp + 1);
            screen = screen;
          }))

  -- The test for a full screen.
  unfoldable pub next_page : Scan → Scan
  next_page s =
      if s.tmp == 20 then record s { tmp = 0; screen = clear_screen 0x000000 s.screen } else s

  -- The body of the innermost loop.
  unfoldable pub probe : (bus slot func : ℕ) → Scan → Io (Option Scan)
  unfolding next_page found_device baseclass_type
  probe bus slot func s = pci_read_word bus slot func 0 >>= λ vendor.
      if vendor_is_valid vendor
      then (baseclass_type bus slot func >>= λ name.
          and_then name (found_device bus slot func (next_page s)))
      else pure (some (next_page s))

  -- The three loops, each with the rounds that are left.
  unfoldable pub scan_funcs : (bus slot : ℕ) → (left func : ℕ) → Scan → Io (Option Scan)
  scan_funcs bus slot zero func s = pure (some s)
  scan_funcs bus slot (suc left) func s =
      probe bus slot func s >>= λ r. and_then r (scan_funcs bus slot left (func + 1))

  unfoldable pub scan_slots : (bus : ℕ) → (left slot : ℕ) → Scan → Io (Option Scan)
  scan_slots bus zero slot s = pure (some s)
  scan_slots bus (suc left) slot s =
      scan_funcs bus slot 8 0 s >>= λ r. and_then r (scan_slots bus left (slot + 1))

  unfoldable pub scan_buses : (left bus : ℕ) → Scan → Io (Option Scan)
  scan_buses zero bus s = pure (some s)
  scan_buses (suc left) bus s =
      scan_slots bus 32 0 s >>= λ r. and_then r (scan_buses left (bus + 1))

  -- The last message; the count is an argument of `%d`.
  unfoldable pub log_count : Scan → Io (Option Scan)
  log_count s =
      and_then
        (log dec_buf hex_buf (codes "%d devices found!\n") s_info (number (u32 s.device_count) ∷ [])
          s.screen)
        λ screen. pure (some (record s { screen = screen }))

  unfoldable pub pci_enumerate_and_log : (screen : Canvas × Ram) → Io (Option Scan)
  pci_enumerate_and_log screen =
      scan_buses 255 0 (record { device_count = 0; tmp = 0; screen = screen }) >>= λ r.
      and_then r log_count
