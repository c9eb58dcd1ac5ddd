-- ===== src/Proc/Thread/Laws.antt =====
-- Which threads the timer ever runs.
use kess_os.Base.{ℕ, zero, suc, ◌+◌, ◌%◌, false, ◌∷◌, [], ◌-◌, ◌≤◌, ◌<◌, ◌≡◌, ◌==◌}
use kess_os.Base.{length, arith, refl}
use kess_os.Proc.Thread.{
  Threads, no_threads, mkthread, unlist_thread, thread_pit_schedule, max_threads,
}

-- What the rest of the kernel may do with the table, one call at a time.
pub data Step : Threads → Threads → Type 0 where
  make : (s : Threads) (exec_addr : ℕ) → Step s (mkthread exec_addr s)
  unlist : (s : Threads) (tid : ℕ) → Step s (unlist_thread tid s)
  tick : (s : Threads) → Step s (thread_pit_schedule s)

-- The calls of `mkthread` that a step makes.
abbrev pub makes : {s t : Threads} → Step s t → ℕ
makes (make s exec_addr) = 1
makes (unlist s tid) = 0
makes (tick s) = 0

-- The states that so many calls of `mkthread` lead to, with any other calls between them.
pub data Reach : (made : ℕ) → Threads → Type 0 where
  start : Reach 0 no_threads
  next : {n : ℕ} {s t : Threads} → Reach n s → (st : Step s t) → Reach (n + makes st) t

-- The slots stay three, and the counters agree with what has been made and run.
pub record IsTable (s : Threads) : Type 0 where
  pub slots : length s.threads ≡ max_threads
  pub turn : s.ctid ≤ max_threads - 1
  pub ran_turn : length s.ran ≡ s.ctid

-- The index has counted the calls, and the first three of them have written inside the array.
pub record HasMade (made : ℕ) (s : Threads) : Type 0 where
  pub index : s.nthreads ≡ made % 256
  pub inside : made ≤ max_threads → s.stray ≡ []
  pub outside : max_threads < made → 0 < length s.stray

-- The state after a number of timer interrupts.
abbrev pub ticks : ℕ → Threads → Threads
ticks zero s = s
ticks (suc n) s = ticks n (thread_pit_schedule s)

idle_at_two : (n : ℕ) (s : Threads) → s.ctid ≡ 2 → ticks n s ≡ s
idle_at_two zero s h = refl
idle_at_two (suc n) s h = rw (stays s h) (idle_at_two n s h)
  where
    stays : (s : Threads) → s.ctid ≡ 2 → thread_pit_schedule s ≡ s
    stays s h = unfold thread_pit_schedule in ground arith

-- Three threads, made and not yet run.
abbrev pub full : (a b c : ℕ) → Threads
full a b c = record { threads = a ∷ b ∷ c ∷ []; ctid = 0; nthreads = 3; ran = []; stray = [] }

-- With three threads made, two or more ticks run the first and the second, and the third is
-- never run, however many ticks follow.
pub third-never_runs :
    (a b c n : ℕ)
    → 0 < a
    → 0 < b
    → ticks (suc (suc n)) (full a b c) ≡ record (full a b c) { ctid = 2; ran = b ∷ a ∷ [] }
unfolding thread_pit_schedule
third-never_runs a b c n ha hb =
    let first : (a == 0) ≡ false = ground arith in
    let second : (b == 0) ≡ false = ground arith in
    rw (first, second) (idle_at_two n (record (full a b c) { ctid = 2; ran = b ∷ a ∷ [] }) refl)
