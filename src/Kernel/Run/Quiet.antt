-- ===== src/Kernel/Run/Quiet.antt =====
-- Port accesses that leave the interrupt controllers as they are: the PCI bus, the timer's
-- interrupts and the speaker.
use kess_os.Base.{
  ℕ, zero, suc, u8, u32, u64, codes, ◌/◌, ◌^◌, ◌+◌, ◌≡◌, refl, ◌∙◌, ◌==◌, ltb, Bool, true, false,
  if◌then◌else◌,
}
use kess_os.Base.{List, [], ◌∷◌, Option, none, some, bit_or, bit_and}
use kess_os.Ram.{Ram}
use kess_os.Arch.Io.{Io, Device, Trace, pure, out8, in8}
use kess_os.Arch.Pic.{pic_send_eoi}
use kess_os.Arch.Pic.Chip.{Chip, master, slave}
use kess_os.Drivers.Video.{Canvas}
use kess_os.Drivers.Pit.{Timer, irq0_handler, interrupts, wait_loop, pit_sleep}
use kess_os.Drivers.Pci.{pci_read_word, pci_get_classid, pci_get_device_id, vendor_is_valid}
use kess_os.Drivers.Pci.Enumerate
use kess_os.Drivers.Pci.Enumerate.{
  device_format, Scan, baseclass_type, found_device, next_page, probe, scan_funcs, scan_slots,
  scan_buses, log_count, pci_enumerate_and_log,
}
use kess_os.Drivers.Pci.Enumerate.Loops.{buses}
use kess_os.Kernel.Log.{log, s_info, text, number}
use kess_os.Drivers.Pcspkr.{play_divisor, pcspkr_shutup}

-- Two chips with the same stage, offset and mask.
abbrev pub Alike : (c d : Chip) → Type 0
Alike c d = (c.stage ≡ d.stage) × (c.offset ≡ d.offset) × (c.mask ≡ d.mask)

module _ (dev : Device) (c1 c2 : Chip) where
  -- The accesses from one trace to the other leave both controllers as they were.
  pub record Same (t t' : Trace) : Type 0 where
    pub master_alike : Alike (master c1 t') (master c1 t)
    pub slave_alike : Alike (slave c2 t') (slave c2 t)

  alike : (t : Trace) → Same t t
  alike t = record { master_alike = (refl, refl, refl); slave_alike = (refl, refl, refl) }

  pub Same-trans : (t t' t'' : Trace) → Same t t' → Same t' t'' → Same t t''
  Same-trans t t' t'' p q = record {
    master_alike = (
      q.master_alike.0 ∙ p.master_alike.0,
      q.master_alike.1 ∙ p.master_alike.1,
      q.master_alike.2 ∙ p.master_alike.2,
    );
    slave_alike = (
      q.slave_alike.0 ∙ p.slave_alike.0,
      q.slave_alike.1 ∙ p.slave_alike.1,
      q.slave_alike.2 ∙ p.slave_alike.2,
    );
  }

  if-Same :
      {A : Type 0} (b : Bool) (x y : Io A) (t0 t : Trace)
      → Same t0 (x dev t).1
      → Same t0 (y dev t).1
      → Same t0 ((if b then x else y) dev t).1
  if-Same true x y t0 t p q = p
  if-Same false x y t0 t p q = q

  and_then-Same :
      {A B : Type 0} (a : Option A) (k : A → Io (Option B)) (t0 t : Trace)
      → Same t0 t
      → ((x : A) → Same t (k x dev t).1)
      → Same t0 (Enumerate.and_then a k dev t).1
  and_then-Same none k t0 t p q = p
  and_then-Same (some x) k t0 t p q = Same-trans t0 t _ p (q x)

  -- The bus is read through ports of its own.
  pci_read_word-Same :
      (bus slot func offset : ℕ) (t : Trace) → Same t (pci_read_word bus slot func offset dev t).1
  unfolding pci_read_word
  pci_read_word-Same bus slot func offset t = record {
    master_alike = (refl, refl, refl);
    slave_alike = (refl, refl, refl);
  }

  classid-Same : (bus slot func : ℕ) (t : Trace) → Same t (pci_get_classid bus slot func dev t).1
  unfolding pci_get_classid
  classid-Same bus slot func t = pci_read_word-Same bus slot func 0xA t

  device-Same : (bus slot func : ℕ) (t : Trace) → Same t (pci_get_device_id bus slot func dev t).1
  unfolding pci_get_device_id
  device-Same bus slot func t = pci_read_word-Same bus slot func 2 t

  baseclass-Same : (bus slot func : ℕ) (t : Trace) → Same t (baseclass_type bus slot func dev t).1
  unfolding baseclass_type
  baseclass-Same bus slot func t =
      let r = pci_get_classid bus slot func dev t in
      let first = classid-Same bus slot func t in
      if-Same (ltb 0x13 r.0) _ _ t r.1 first
        (Same-trans t r.1 _ first (classid-Same bus slot func r.1))

  module _ (dec_buf hex_buf : ℕ) where
    found-Same :
        (bus slot func : ℕ) (s : Scan) (name : List ℕ) (t : Trace)
        → Same t (found_device dec_buf hex_buf bus slot func s name dev t).1
    unfolding found_device
    found-Same bus slot func s name t =
        let r = pci_get_device_id bus slot func dev t in
        let counted : Canvas × Ram → Io (Option Scan) = λ screen. pure (
          some (record {
            device_count = u64 (s.device_count + 1);
            tmp = u64 (s.tmp + 1);
            screen = screen;
          })) in
        and_then-Same
          (log dec_buf hex_buf device_format s_info
            (number bus ∷ number slot ∷ number r.0 ∷ text name ∷ []) s.screen)
          counted t r.1 (device-Same bus slot func t) λ screen. alike r.1

    probe-Same :
        (bus slot func : ℕ) (s : Scan) (t : Trace)
        → Same t (probe dec_buf hex_buf bus slot func s dev t).1
    unfolding probe
    probe-Same bus slot func s t =
        let r = pci_read_word bus slot func 0 dev t in
        let read = pci_read_word-Same bus slot func 0 t in
        let name = baseclass_type bus slot func dev r.1 in
        if-Same (vendor_is_valid r.0) _ _ t r.1
          (and_then-Same name.0 _ t name.1
            (Same-trans t r.1 name.1 read (baseclass-Same bus slot func r.1))
            λ n. found-Same bus slot func _ n name.1)
          read

    buses-Same :
        (left bus : ℕ) (s : Scan) (t : Trace)
        → Same t (scan_buses dec_buf hex_buf left bus s dev t).1
    buses-Same =
        buses dec_buf hex_buf dev (λ s t r t'. Same t t') (λ s t. alike t)
          (λ s s' t t' r t''. Same-trans t t' t'') probe-Same

    count-Same : (s : Scan) (t : Trace) → Same t (log_count dec_buf hex_buf s dev t).1
    unfolding log_count
    count-Same s t =
        let message = codes "%d devices found!\n" in
        let kept : Canvas × Ram → Io (Option Scan) =
          λ screen. pure (some (record s { screen = screen })) in
        and_then-Same
          (log dec_buf hex_buf message s_info (number (u32 s.device_count) ∷ []) s.screen) kept t t
          (alike t) λ x. alike t

    pub enumerate-Same :
        (screen : Canvas × Ram) (t : Trace)
        → Same t (pci_enumerate_and_log dec_buf hex_buf screen dev t).1
    unfolding pci_enumerate_and_log
    enumerate-Same screen t =
        let start : Scan = record { device_count = 0; tmp = 0; screen = screen } in
        let r = scan_buses dec_buf hex_buf 255 0 start dev t in
        and_then-Same r.0 (log_count dec_buf hex_buf) t r.1 (buses-Same 255 0 start t)
          λ s. count-Same s r.1

  -- An interrupt of the timer is acknowledged, which changes no mask.
  irq0-Same : (s : Timer) (t : Trace) → Same t (irq0_handler s dev t).1
  unfolding irq0_handler pic_send_eoi
  irq0-Same s t = record { master_alike = (refl, refl, refl); slave_alike = (refl, refl, refl) }

  interrupts-Same : (n : ℕ) (s : Timer) (t : Trace) → Same t (interrupts n s dev t).1
  unfolding interrupts
  interrupts-Same zero s t = alike t
  interrupts-Same (suc n) s t =
      let r = irq0_handler s dev t in Same-trans t r.1 _ (irq0-Same s t) (interrupts-Same n r.0 r.1)

  wait-Same :
      (eticks : ℕ) (polls : List ℕ) (s : Timer) (t : Trace)
      → Same t (wait_loop eticks polls s dev t).1
  unfolding wait_loop
  wait-Same eticks [] s t = alike t
  wait-Same eticks (n ∷ polls) s t =
      let r = interrupts n s dev t in
      if-Same (ltb s.ticks eticks) _ _ t t
        (Same-trans t r.1 _ (interrupts-Same n s t) (wait-Same eticks polls r.0 r.1)) (alike t)

  pub sleep-Same :
      (ticks : ℕ) (polls : List ℕ) (s : Timer) (t : Trace)
      → Same t (pit_sleep ticks polls s dev t).1
  unfolding pit_sleep
  sleep-Same ticks polls s t = wait-Same _ polls s t

  pub play-Same : (d : ℕ) (t : Trace) → Same t (play_divisor d dev t).1
  unfolding play_divisor
  play-Same d t =
      let t' = out8 0x42 (u8 (d / 2 ^ 8)) ∷ out8 0x42 (u8 (bit_and d 0xFF)) ∷ out8 0x43 0xB6 ∷ t in
      let tmp = u8 (dev t' 0x61) in
      if-Same (tmp == bit_or tmp 3) _ _ t (in8 0x61 ∷ t')
        (record { master_alike = (refl, refl, refl); slave_alike = (refl, refl, refl) })
        (record { master_alike = (refl, refl, refl); slave_alike = (refl, refl, refl) })

  pub shutup-Same : (t : Trace) → Same t (pcspkr_shutup dev t).1
  unfolding pcspkr_shutup
  shutup-Same t = record { master_alike = (refl, refl, refl); slave_alike = (refl, refl, refl) }
