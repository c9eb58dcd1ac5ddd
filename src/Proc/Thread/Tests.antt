-- ===== src/Proc/Thread/Tests.antt =====
-- Instances of the thread table's theorems.
use kess_os.Base.{◌≡◌, ◌∷◌, [], suc, arith}
use kess_os.Proc.Thread.{Threads}
use kess_os.Proc.Thread.Laws.{ticks, full, third-never_runs}

abbrev one_run : Threads
one_run = record {
  threads = 0x2000 ∷ 0 ∷ 0 ∷ [];
  ctid = 1;
  nthreads = 1;
  ran = 0x2000 ∷ [];
  stray = [];
}

third-never_runs_example :
    ticks (suc (suc 5)) (full 0x2000 0x3000 0x4000)
    ≡ record (full 0x2000 0x3000 0x4000) { ctid = 2; ran = 0x3000 ∷ 0x2000 ∷ [] }
third-never_runs_example = third-never_runs 0x2000 0x3000 0x4000 5 (omega arith) (omega arith)
