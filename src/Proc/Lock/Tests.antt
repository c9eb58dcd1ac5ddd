-- ===== src/Proc/Lock/Tests.antt =====
-- An interleaving in which a second thread spins while the first is inside.
use kess_os.Base.{true, refl}
use kess_os.Proc.Lock.{outside, locking, critical, mutex_lock, test_and_set}
use kess_os.Proc.Lock.Safety.{
  System, update, Reach, start, next, call, round, IsExclusive, Reach-IsExclusive,
}

abbrev contended : System
contended = record {
  lock = true;
  pc = update (update (update (update (λ _. outside) 0 locking) 0 critical) 1 locking) 1 locking;
}

contended-Reach : Reach contended
unfolding mutex_lock test_and_set
contended-Reach =
    next (next (next (next start (call 0 refl)) (round 0 refl)) (call 1 refl)) (round 1 refl)

Reach-IsExclusive_example : IsExclusive contended
Reach-IsExclusive_example = Reach-IsExclusive contended-Reach
