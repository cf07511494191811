-- ===== src/Mosalloc/Tests/Threads.antt =====
-- The theorems on the lock, tried on two threads that start from an idle lock.
use mosalloc_rs.Base.{ℕ, ◌≤◌, ◌≡◌, refl, List, [], ◌∷◌, length}
use mosalloc_rs.Mosalloc.Lock.{Threads, spinning, inside, run, new, idle, lock_round}
use mosalloc_rs.Mosalloc.Lock.Exclusion.{IsExclusive, run-IsExclusive}
use mosalloc_rs.Mosalloc.Lock.Progress.{run-reaches}

idle-IsExclusive : IsExclusive idle
unfolding new
idle-IsExclusive = record {
  free = λ f t h. absurd (cc);
  held = λ f. absurd (cc);
  one = λ t u h k. absurd (cc);
  bound = λ t. tt;
}

-- Thread 0 gets in, thread 1 waits.
run-IsExclusive_example : IsExclusive (run (0 ∷ 1 ∷ 0 ∷ 1 ∷ []) idle)
run-IsExclusive_example = run-IsExclusive (0 ∷ 1 ∷ 0 ∷ 1 ∷ []) idle idle-IsExclusive

abbrev waits : Threads
waits = run (0 ∷ 1 ∷ 0 ∷ 1 ∷ []) idle

waits-spinning : waits.stage 1 ≡ spinning 1
unfolding run new lock_round
waits-spinning = refl

run-reaches_example : (ts : List ℕ) × (length ts ≤ 2) × ((run ts waits).stage 1 ≡ inside)
run-reaches_example =
    run-reaches 1 1 waits (run-IsExclusive (0 ∷ 1 ∷ 0 ∷ 1 ∷ []) idle idle-IsExclusive)
      waits-spinning
