-- ===== src/Drivers/Pci/Enumerate/Loops.antt =====
-- What each probe does, all three loops do.
use kess_os.Base.{ℕ, zero, suc, ◌+◌, Option, none, some}
use kess_os.Arch.Io.{Io, Device, Trace}
use kess_os.Drivers.Pci.Enumerate
use kess_os.Drivers.Pci.Enumerate.{Scan, probe, scan_funcs, scan_slots, scan_buses}

-- A relation between the variables and the trace before and after.
abbrev pub Relation : Type 1
Relation = Scan → Trace → Option Scan → Trace → Type 0

module _ (dec_buf hex_buf : ℕ) (dev : Device) (R : Relation)
    (stay : (s : Scan) (t : Trace) → R s t (some s) t)
    (go : (s s' : Scan) (t t' : Trace) (r : Option Scan) (t'' : Trace)
      → R s t (some s') t'
      → R s' t' r t''
      → R s t r t'')
    (probes : (bus slot func : ℕ) (s : Scan) (t : Trace)
      → let r = probe dec_buf hex_buf bus slot func s dev t in R s t r.0 r.1) where
  rounds :
      (s : Scan) (t : Trace) (r : Option Scan) (t' : Trace) (k : Scan → Io (Option Scan))
      → R s t r t'
      → ((s' : Scan) → R s' t' (k s' dev t').0 (k s' dev t').1)
      → let r' = Enumerate.and_then r k dev t' in R s t r'.0 r'.1
  rounds s t none t' k first rest = first
  rounds s t (some s') t' k first rest = go s s' t t' _ _ first (rest s')

  funcs :
      (bus slot left func : ℕ) (s : Scan) (t : Trace)
      → let r = scan_funcs dec_buf hex_buf bus slot left func s dev t in R s t r.0 r.1
  unfolding scan_funcs
  funcs bus slot zero func s t = stay s t
  funcs bus slot (suc left) func s t =
      rounds s t _ _ (scan_funcs dec_buf hex_buf bus slot left (func + 1))
        (probes bus slot func s t) λ s'. funcs bus slot left (func + 1) s' _

  slots :
      (bus left slot : ℕ) (s : Scan) (t : Trace)
      → let r = scan_slots dec_buf hex_buf bus left slot s dev t in R s t r.0 r.1
  unfolding scan_slots
  slots bus zero slot s t = stay s t
  slots bus (suc left) slot s t =
      rounds s t _ _ (scan_slots dec_buf hex_buf bus left (slot + 1)) (funcs bus slot 8 0 s t)
        λ s'. slots bus left (slot + 1) s' _

  pub buses :
      (left bus : ℕ) (s : Scan) (t : Trace)
      → let r = scan_buses dec_buf hex_buf left bus s dev t in R s t r.0 r.1
  unfolding scan_buses
  buses zero bus s t = stay s t
  buses (suc left) bus s t =
      rounds s t _ _ (scan_buses dec_buf hex_buf left (bus + 1)) (slots bus 32 0 s t)
        λ s'. buses left (bus + 1) s' _
