-- ===== src/Proc/Lock/Safety.antt =====
-- Any number of threads, interleaved in any order, that lock before they unlock.
use kess_os.Base.{ℕ, ◌≡◌, ◌==◌, if◌then◌else◌, Bool, true, false, arith}
use kess_os.Proc.Lock.{Pc, outside, locking, critical, mutex_lock, mutex_unlock}

pub record System : Type 0 where
  pub lock : Bool
  pub pc : ℕ → Pc

abbrev pub update : (ℕ → Pc) → ℕ → Pc → ℕ → Pc
update f i p j = if i == j then p else f j

-- Thread `i` calls `mutex_lock`, makes a round of its loop, or calls `mutex_unlock`.
pub data Step (s : System) : System → Type 0 where
  call : (i : ℕ) → s.pc i ≡ outside → Step s (record s { pc = update s.pc i locking })
  round :
      (i : ℕ)
      → s.pc i ≡ locking
      → Step s (record { lock = (mutex_lock s.lock).0; pc = update s.pc i (mutex_lock s.lock).1 })
  unlock :
      (i : ℕ)
      → s.pc i ≡ critical
      → Step s
          (record { lock = (mutex_unlock s.lock).0; pc = update s.pc i (mutex_unlock s.lock).1 })

pub data Reach : System → Type 0 where
  start : Reach (record { lock = false; pc = λ _. outside })
  next : {s t : System} → Reach s → Step s t → Reach t

-- The byte is set while a thread is inside, and two are never inside together.
pub record IsExclusive (s : System) : Type 0 where
  pub held : (i : ℕ) → s.pc i ≡ critical → s.lock ≡ true
  pub alone : (i j : ℕ) → s.pc i ≡ critical → s.pc j ≡ critical → i ≡ j

Step-IsExclusive : {s t : System} → Step s t → IsExclusive s → IsExclusive t
unfolding mutex_lock mutex_unlock
Step-IsExclusive (call i e) v = record {
  held = λ j h. ground (arith, v.held j);
  alone = λ j k h h'. ground (arith, v.alone j k);
}
Step-IsExclusive (round i e) v = record {
  held = λ j h. ground (arith, v.held j);
  alone = λ j k h h'. ground (arith, v.alone j k, v.held j, v.held k);
}
Step-IsExclusive (unlock i e) v = record {
  held = λ j h. ground (arith, v.alone i j);
  alone = λ j k h h'. ground (arith, v.alone j k);
}

-- Mutual exclusion: in every reachable state at most one thread is between the return of
-- `mutex_lock` and `mutex_unlock`, and the byte is set while one is.
pub Reach-IsExclusive : {s : System} → Reach s → IsExclusive s
Reach-IsExclusive start = record { held = λ i h. cc; alone = λ i j h h'. cc }
Reach-IsExclusive (next r st) = Step-IsExclusive st (Reach-IsExclusive r)
