-- ===== src/Proc/Thread.antt =====
-- kernel/src/proc/impl/thread.c: three slots, run one after the other by the timer interrupt.
-- `mkthread` has no test of the index: when the slots are used up it writes past the array, and the
-- model keeps such writes in a list of their own.
pub mod Laws
mod Tests
use kess_os.Base.{ℕ, List, ◌∷◌, [], ◌+◌, ◌-◌, ◌==◌, ltb, leb, if◌then◌else◌, u8}
use kess_os.Base.{length, set, get_or}

abbrev pub max_threads : ℕ
max_threads = 3

-- The statics; `ran` lists the entry points that have been called, and `stray` the writes
-- behind the array with their indices, the latest first.
pub record Threads : Type 0 where
  pub threads : List ℕ
  pub ctid : ℕ
  pub nthreads : ℕ
  pub ran : List ℕ
  pub stray : List (ℕ × ℕ)

abbrev pub no_threads : Threads
no_threads = record { threads = 0 ∷ 0 ∷ 0 ∷ []; ctid = 0; nthreads = 0; ran = []; stray = [] }

unfoldable pub mkthread : (exec_addr : ℕ) → Threads → Threads
mkthread exec_addr s =
    if ltb s.nthreads (length s.threads)
    then record s { threads = set s.threads s.nthreads exec_addr; nthreads = u8 (s.nthreads + 1) }
    else record s { nthreads = u8 (s.nthreads + 1); stray = (s.nthreads, exec_addr) ∷ s.stray }

-- For `tid` of 0 and above; the source does not test for a negative one.
unfoldable pub unlist_thread : (tid : ℕ) → Threads → Threads
unlist_thread tid s =
    if ltb (max_threads - 1) tid then s else record s { threads = set s.threads tid 0 }

unfoldable pub get_active_thread : Threads → ℕ
get_active_thread s = s.ctid

unfoldable pub thread_pit_schedule : Threads → Threads
thread_pit_schedule s =
    if leb (max_threads - 1) s.ctid
    then s
    else if get_or s.threads s.ctid 0 == 0
    then s
    else record s { ctid = u8 (s.ctid + 1); ran = get_or s.threads s.ctid 0 ∷ s.ran }
