-- ===== src/Drivers/Pci/Enumerate/Kept.antt =====
-- The enumeration writes on the same frame buffer.
use kess_os.Base.{ℕ, ◌+◌, ◌≡◌, refl, List, [], ◌∷◌, Option, none, some, codes, ◌==◌}
use kess_os.Base.{Bool, true, false, Bool-cases, inl, inr, if◌then◌else◌, u32, u64}
use kess_os.Ram.{Ram}
use kess_os.Arch.Io.{Io, Device, Trace, pure}
use kess_os.Drivers.Video.{Canvas, Framebuffer, clear_screen}
use kess_os.Drivers.Video.Kept.{IsOn}
use kess_os.Drivers.Pci.{pci_read_word, pci_get_device_id, vendor_is_valid}
use kess_os.Drivers.Pci.Enumerate
use kess_os.Drivers.Pci.Enumerate.{
  device_format, Scan, baseclass_type, found_device, next_page, probe, scan_funcs, scan_slots,
  scan_buses, log_count, pci_enumerate_and_log,
}
use kess_os.Drivers.Pci.Enumerate.Loops.{buses}
use kess_os.Kernel.Log.{text, number, log, s_info}
use kess_os.Kernel.Log.Kept.{log-IsOn}

module _ (lfb : Framebuffer) where
  -- The same of the variables of the enumeration.
  abbrev pub IsScanOn : Option Scan → Type 0
  IsScanOn none = Unit
  IsScanOn (some s) = s.screen.0.lfb ≡ lfb

  and_then-IsOn :
      {A : Type 0} (a : Option A) (k : A → Io (Option Scan)) (dev : Device) (t : Trace)
      → ((x : A) → a ≡ some x → IsScanOn (k x dev t).0)
      → IsScanOn (Enumerate.and_then a k dev t).0
  and_then-IsOn none k dev t h = tt
  and_then-IsOn (some x) k dev t h = h x refl

  scan-IsOn :
      (r : Option Scan) (k : Scan → Io (Option Scan)) (dev : Device) (t : Trace)
      → IsScanOn r
      → ((s : Scan) → s.screen.0.lfb ≡ lfb → IsScanOn (k s dev t).0)
      → IsScanOn (Enumerate.and_then r k dev t).0
  scan-IsOn none k dev t on h = tt
  scan-IsOn (some s) k dev t on h = h s on

  written-IsOn :
      (r : Option (Canvas × Ram)) (f : Canvas × Ram → Scan) (dev : Device) (t : Trace)
      → IsOn lfb r
      → ((x : Canvas × Ram) → (f x).screen ≡ x)
      → IsScanOn (Enumerate.and_then r (λ x. pure (some (f x))) dev t).0
  written-IsOn none f dev t on h = tt
  written-IsOn (some s) f dev t on h = rw (h s) on

  if-IsOn :
      (b : Bool) (x y : Io (Option Scan)) (dev : Device) (t : Trace)
      → IsScanOn (x dev t).0
      → IsScanOn (y dev t).0
      → IsScanOn ((if b then x else y) dev t).0
  if-IsOn true x y dev t p q = p
  if-IsOn false x y dev t p q = q

  module _ (dec_buf hex_buf : ℕ) (dev : Device) where
    next_page-lfb :
        (s : Scan) → s.screen.0.lfb ≡ lfb → (next_page dec_buf hex_buf s).screen.0.lfb ≡ lfb
    unfolding next_page clear_screen
    next_page-lfb s on = elim (Bool-cases (s.tmp == 20)) [
      | inl full ↦ rw full on
      | inr room ↦ rw room on
    ]

    found-IsOn :
        (bus slot func : ℕ) (s : Scan) (name : List ℕ) (t : Trace)
        → s.screen.0.lfb ≡ lfb
        → IsScanOn (found_device dec_buf hex_buf bus slot func s name dev t).0
    unfolding found_device
    found-IsOn bus slot func s name t on =
        let r = pci_get_device_id bus slot func dev t in
        let args = number bus ∷ number slot ∷ number r.0 ∷ text name ∷ [] in
        let counted : Canvas × Ram → Scan = λ screen. record {
          device_count = u64 (s.device_count + 1);
          tmp = u64 (s.tmp + 1);
          screen = screen;
        } in
        written-IsOn (log dec_buf hex_buf device_format s_info args s.screen) counted dev r.1
          (log-IsOn lfb dec_buf hex_buf device_format s_info args s.screen on) λ x. refl

    probe-IsOn :
        (bus slot func : ℕ) (s : Scan) (t : Trace)
        → s.screen.0.lfb ≡ lfb
        → IsScanOn (probe dec_buf hex_buf bus slot func s dev t).0
    unfolding probe
    probe-IsOn bus slot func s t on =
        let r = pci_read_word bus slot func 0 dev t in
        let page = next_page-lfb s on in
        let name = baseclass_type bus slot func dev r.1 in
        if-IsOn (vendor_is_valid r.0) _ _ dev r.1
          (and_then-IsOn name.0
            (found_device dec_buf hex_buf bus slot func (next_page dec_buf hex_buf s)) dev name.1
            λ n e. found-IsOn bus slot func (next_page dec_buf hex_buf s) n name.1 page)
          page

    buses-IsOn :
        (left bus : ℕ) (s : Scan) (t : Trace)
        → s.screen.0.lfb ≡ lfb
        → IsScanOn (scan_buses dec_buf hex_buf left bus s dev t).0
    buses-IsOn =
        buses dec_buf hex_buf dev (λ s t r t'. s.screen.0.lfb ≡ lfb → IsScanOn r) (λ s t on. on)
          (λ s s' t t' r t'' first rest on. rest (first on)) probe-IsOn

    count-IsOn :
        (s : Scan) (t : Trace)
        → s.screen.0.lfb ≡ lfb
        → IsScanOn (log_count dec_buf hex_buf s dev t).0
    unfolding log_count
    count-IsOn s t on =
        let args = number (u32 s.device_count) ∷ [] in
        written-IsOn (log dec_buf hex_buf (codes "%d devices found!\n") s_info args s.screen)
          (λ screen. record s { screen = screen }) dev t
          (log-IsOn lfb dec_buf hex_buf (codes "%d devices found!\n") s_info args s.screen on)
          λ x. refl

    pub enumerate-IsOn :
        (screen : Canvas × Ram) (t : Trace)
        → screen.0.lfb ≡ lfb
        → IsScanOn (pci_enumerate_and_log dec_buf hex_buf screen dev t).0
    unfolding pci_enumerate_and_log
    enumerate-IsOn screen t on =
        let start : Scan = record { device_count = 0; tmp = 0; screen = screen } in
        let r = scan_buses dec_buf hex_buf 255 0 start dev t in
        scan-IsOn r.0 (log_count dec_buf hex_buf) dev r.1 (buses-IsOn 255 0 start t on)
          λ s on'. count-IsOn s r.1 on'
