-- ===== src/Drivers/Pci/Enumerate/Laws.antt =====
-- How many devices the enumeration finds on a machine whose host bridge answers.
use kess_os.Base.{
  ℕ, zero, suc, ◌+◌, ◌*◌, ◌/◌, ◌%◌, ◌^◌, ◌≤◌, ◌<◌, ◌≡◌, refl, arith, ◌==◌, true, false,
}
use kess_os.Base.{
  if◌then◌else◌, ltb, Option, some, get_elem?-some, Bool-cases, inl, inr, map, codes, List, [], ◌∷◌,
  dec_lt, u32, subst,
}
use kess_os.Ram.{Ram}
use kess_os.Arch.Io.{Io, Device, Trace}
use kess_os.Drivers.Video.{Canvas}
use kess_os.Kernel.Log.{log, s_info, text, number, directive}
use kess_os.Kernel.Log.Total.{Fits, log-Fits}
use kess_os.Drivers.Pci.{
  pci_read_word, pci_get_vendor_id, pci_get_classid, pci_get_device_id, vendor_is_valid,
  base_class_types,
}
use kess_os.Drivers.Pci.Fields.{Config, IsHostBridge, pci_get-fields}
use kess_os.Drivers.Pci.Enumerate.{
  Scan, device_format, baseclass_type, and_then, found_device, next_page, probe, scan_funcs,
  scan_slots, scan_buses, log_count, pci_enumerate_and_log,
}

-- 1 for a function that answers with a vendor, 0 for one that does not.
abbrev pub present : Config → (bus slot func : ℕ) → ℕ
present cfg bus slot func = if cfg bus slot func 0 % 2 ^ 16 == 0xFFFF then 0 else 1

pub funcs_in : Config → (bus slot : ℕ) → (left func : ℕ) → ℕ
funcs_in cfg bus slot zero func = 0
funcs_in cfg bus slot (suc left) func =
    present cfg bus slot func + funcs_in cfg bus slot left (func + 1)

pub slots_in : Config → (bus : ℕ) → (left slot : ℕ) → ℕ
slots_in cfg bus zero slot = 0
slots_in cfg bus (suc left) slot = funcs_in cfg bus slot 8 0 + slots_in cfg bus left (slot + 1)

-- The functions with a vendor on the buses from `bus` on.
pub buses_in : Config → (left bus : ℕ) → ℕ
buses_in cfg zero bus = 0
buses_in cfg (suc left) bus = slots_in cfg bus 32 0 + buses_in cfg left (bus + 1)

funcs_in-le : (cfg : Config) (bus slot left func : ℕ) → funcs_in cfg bus slot left func ≤ left
unfolding funcs_in
funcs_in-le cfg bus slot zero func = omega arith
funcs_in-le cfg bus slot (suc left) func = ground (arith, funcs_in-le cfg bus slot left (func + 1))

slots_in-le : (cfg : Config) (bus left slot : ℕ) → slots_in cfg bus left slot ≤ left * 8
unfolding slots_in
slots_in-le cfg bus zero slot = omega arith
slots_in-le cfg bus (suc left) slot =
    omega (arith, funcs_in-le cfg bus slot 8 0, slots_in-le cfg bus left (slot + 1))

buses_in-le : (cfg : Config) (left bus : ℕ) → buses_in cfg left bus ≤ left * 256
unfolding buses_in
buses_in-le cfg zero bus = omega arith
buses_in-le cfg (suc left) bus =
    omega (arith, slots_in-le cfg bus 32 0, buses_in-le cfg left (bus + 1))

-- The result is there, and the count has grown by `n`.
abbrev Counted : (n : ℕ) → Scan → Option Scan × Trace → Type 0
Counted n s r = (s' : Scan) × (r.0 ≡ some s') × (s'.device_count ≡ s.device_count + n)

device_format-Fits :
    (bus slot device : ℕ) (name : List ℕ)
    → Fits device_format (number bus ∷ number slot ∷ number device ∷ text name ∷ [])
unfolding directive
device_format-Fits bus slot device name = omega arith

module _ (dec_buf hex_buf : ℕ) {dev : Device} {cfg : Config} (bridge : IsHostBridge dev cfg) where
  and_then-Counted :
      (a b : ℕ) (s : Scan) (r : Option Scan × Trace) (k : Scan → Io (Option Scan))
      → Counted a s r
      → ((s' : Scan) (t : Trace) → s'.device_count ≡ s.device_count + a → Counted b s' (k s' dev t))
      → Counted (a + b) s (and_then r.0 k dev r.1)
  and_then-Counted a b s r k (s', e, c) next =
      let after : Counted b s' (k s' dev r.1) = next s' r.1 c in
      rw e (after.0, after.1, omega (arith, after.2))

  page-count : (s : Scan) → (next_page dec_buf hex_buf s).device_count ≡ s.device_count
  unfolding next_page
  page-count s = ground arith

  module _ (bus slot func : ℕ) (hb : bus < 256) (hs : slot < 32) (hf : func < 8) where
    named : (t : Trace) → (name : List ℕ) × ((baseclass_type bus slot func dev t).0 ≡ some name)
    unfolding baseclass_type
    named t =
        let c = cfg bus slot func 2 / 2 ^ 24 in
        let t1 = (pci_get_classid bus slot func dev t).1 in
        let first = (pci_get-fields bridge bus slot func hb hs hf t).2 in
        let second = (pci_get-fields bridge bus slot func hb hs hf t1).2 in
        elim (dec_lt 0x13 c) [
          | yes big ↦
              let test : ltb 0x13 (pci_get_classid bus slot func dev t).0 ≡ true = ground arith in
              rw test (codes "RESERVED", refl)
          | no small ↦
              let test : ltb 0x13 (pci_get_classid bus slot func dev t).0 ≡ false = ground arith in
              rw (test, second) (get_elem?-some (map codes base_class_types) c (omega arith))
        ]

    found :
        (s : Scan) (t : Trace) (name : List ℕ)
        → s.device_count + 1 < 2 ^ 64
        → Counted 1 s (found_device dec_buf hex_buf bus slot func s name dev t)
    unfolding found_device
    found s t name small =
        let d = (pci_get_device_id bus slot func dev t).0 in
        let written =
          log-Fits dec_buf hex_buf device_format s_info _ s.screen
            (device_format-Fits bus slot d name) in
        rw written.1 (_, refl, omega arith)

    probe-Counted :
        (s : Scan) (t : Trace)
        → s.device_count + 1 < 2 ^ 64
        → Counted (present cfg bus slot func) s (probe dec_buf hex_buf bus slot func s dev t)
    unfolding probe pci_get_vendor_id
    probe-Counted s t small =
        let read = pci_read_word bus slot func 0 dev t in
        let vendor : read.0 ≡ cfg bus slot func 0 % 2 ^ 16 =
          (pci_get-fields bridge bus slot func hb hs hf t).0 in
        let s1 = next_page dec_buf hex_buf s in
        let same = page-count s in
        elim (Bool-cases (cfg bus slot func 0 % 2 ^ 16 == 0xFFFF)) [
          | inl absent ↦
              let test : vendor_is_valid read.0 ≡ false = ground arith in
              rw (test, absent) (s1, refl, omega arith)
          | inr there ↦
              let test : vendor_is_valid read.0 ≡ true = ground arith in
              let name = named read.1 in
              let t2 = (baseclass_type bus slot func dev read.1).1 in
              let seen : Counted 1 s1
                  (found_device dec_buf hex_buf bus slot func s1 name.0 dev t2) =
                found s1 t2 name.0 (omega arith) in
              rw (test, there, name.1) (seen.0, seen.1, omega (arith, seen.2))
        ]

  module _ (bus : ℕ) (hb : bus < 256) where
    funcs-Counted :
        (slot : ℕ)
        → slot < 32
        → (left func : ℕ) (s : Scan) (t : Trace) → func + left ≤ 8
        → s.device_count + left < 2 ^ 64
        → Counted
            (funcs_in cfg bus slot left func)
            s
            (scan_funcs dec_buf hex_buf bus slot left func s dev t)
    unfolding scan_funcs funcs_in
    funcs-Counted slot hs zero func s t range small = (s, refl, omega arith)
    funcs-Counted slot hs (suc left) func s t range small =
        and_then-Counted _ _ s _ _
          (probe-Counted bus slot func hb hs (omega arith) s t (omega arith))
          λ s' t' e. funcs-Counted slot hs left (func + 1) s' t' (omega arith) (ground (arith, e))

    slots-Counted :
        (left slot : ℕ) (s : Scan) (t : Trace)
        → slot + left ≤ 32
        → s.device_count + left * 8 < 2 ^ 64
        → Counted (slots_in cfg bus left slot) s (scan_slots dec_buf hex_buf bus left slot s dev t)
    unfolding scan_slots slots_in
    slots-Counted zero slot s t range small = (s, refl, omega arith)
    slots-Counted (suc left) slot s t range small =
        and_then-Counted _ _ s _ _
          (funcs-Counted slot (omega arith) 8 0 s t (omega arith) (omega arith))
          λ s' t' e.
            slots-Counted left (slot + 1) s' t' (omega arith)
              (omega (arith, e, funcs_in-le cfg bus slot 8 0))

  buses-Counted :
      (left bus : ℕ) (s : Scan) (t : Trace)
      → bus + left ≤ 256
      → s.device_count + left * 256 < 2 ^ 64
      → Counted (buses_in cfg left bus) s (scan_buses dec_buf hex_buf left bus s dev t)
  unfolding scan_buses buses_in
  buses-Counted zero bus s t range small = (s, refl, omega arith)
  buses-Counted (suc left) bus s t range small =
      and_then-Counted _ _ s _ _
        (slots-Counted bus (omega arith) 32 0 s t (omega arith) (omega arith))
        λ s' t' e.
          buses-Counted left (bus + 1) s' t' (omega arith)
            (omega (arith, e, slots_in-le cfg bus 32 0))

  count_format-Fits : (n : ℕ) → Fits (codes "%d devices found!\n") (number n ∷ [])
  unfolding directive
  count_format-Fits n = omega arith

  -- On a machine whose host bridge answers, the enumeration ends with a result: every message has
  -- its arguments and every class its name. The count is the number of functions with a vendor
  -- among 8 functions of each of 32 slots on the buses 0 to 254; bus 255 is not looked at. The last
  -- thing on the screen, after the messages of the scan, is the message with that number.
  pub pci_enumerate_and_log-counts :
      (screen : Canvas × Ram) (t : Trace)
      → let start : Scan = record { device_count = 0; tmp = 0; screen = screen } in
        (s : Scan) × ((pci_enumerate_and_log dec_buf hex_buf screen dev t).0 ≡ some s)
        × (s.device_count ≡ buses_in cfg 255 0)
        × (s1 : Scan) × ((scan_buses dec_buf hex_buf 255 0 start dev t).0 ≡ some s1)
        × (log dec_buf hex_buf
              (codes "%d devices found!\n")
              s_info
              (number (buses_in cfg 255 0) ∷ [])
              s1.screen
            ≡ some s.screen)
  unfolding pci_enumerate_and_log log_count
  pci_enumerate_and_log-counts screen t =
      let start : Scan = record { device_count = 0; tmp = 0; screen = screen } in
      let r : Counted (buses_in cfg 255 0) start (scan_buses dec_buf hex_buf 255 0 start dev t) =
        buses-Counted 255 0 start t (omega arith) (omega arith) in
      let (s, e, n) = r in
      let written =
        log-Fits dec_buf hex_buf _ s_info _ s.screen (count_format-Fits (u32 s.device_count)) in
      let shown : u32 s.device_count ≡ buses_in cfg 255 0 =
        omega (arith, n, buses_in-le cfg 255 0) in
      let last =
        subst
          (λ n.
            log dec_buf hex_buf (codes "%d devices found!\n") s_info (number n ∷ []) s.screen
            ≡ some written.0)
          shown written.1 in
      rw (e, written.1) (_, refl, omega arith, s, refl, last)
