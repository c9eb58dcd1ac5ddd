-- ===== src/Kernel/Run/Ends.antt =====
-- What holds of the machine if a part of the start ends with one.
use kess_os.Arch.Io.{Io, Device, Trace}
use kess_os.Kernel.Start.{
  Machine, Started, running, halted, division_error, no_message, asleep, no_paging, and_then,
}

-- A machine that runs is one of these.
abbrev pub Ends : (Machine → Type 0) → Started → Type 0
Ends P (running m) = P m
Ends P _ = Unit

pub then-Ends :
    (P Q : Machine → Type 0) (r : Started) (k : Machine → Io Started) (dev : Device) (t : Trace)
    → Ends P r
    → ((m : Machine) → P m → Ends Q (k m dev t).0)
    → Ends Q (and_then r k dev t).0
then-Ends P Q (running m) k dev t p h = h m p
then-Ends P Q halted k dev t p h = tt
then-Ends P Q division_error k dev t p h = tt
then-Ends P Q no_message k dev t p h = tt
then-Ends P Q asleep k dev t p h = tt
then-Ends P Q (no_paging r) k dev t p h = tt
