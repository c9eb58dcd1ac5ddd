-- ===== src/Proc/Lock.antt =====
-- kernel/src/proc/impl/lock.c: a spin lock. `__atomic_test_and_set` and `__atomic_clear` are the
-- compiler's: each is one step on the byte, as the C memory model orders them.
pub mod Safety
mod Tests
use kess_os.Base.{ℕ, ◌≡◌, ◌==◌, if◌then◌else◌, Bool, true, false}

-- `__atomic_test_and_set`: sets the byte, and returns what it was.
unfoldable pub test_and_set : Bool → Bool × Bool
test_and_set held = (held, true)

-- `__atomic_clear`.
unfoldable pub atomic_clear : Bool → Bool
atomic_clear held = false

-- A thread outside, in the loop of `mutex_lock`, or between its return and `mutex_unlock`.
pub data Pc : Type 0 where
  outside locking critical : Pc

-- One round of `while (__atomic_test_and_set(lock, …));`.
unfoldable pub mutex_lock : Bool → Bool × Pc
unfolding test_and_set
mutex_lock held = let r = test_and_set held in (r.1, if r.0 then locking else critical)

unfoldable pub mutex_unlock : Bool → Bool × Pc
unfolding atomic_clear
mutex_unlock held = (atomic_clear held, outside)
