-- ===== src/Mosalloc/Lock.antt =====
-- The spin lock of a region (src/libmosalloc/src/lock.rs), with any number of threads.
--
-- The two memory operations on the atomic flag are single steps; a schedule lists the threads in the
-- order of their steps. yield_now and spin_loop are left to the schedule.
pub mod Exclusion
pub mod Progress
use mosalloc_rs.Base.{ℕ, suc, List, [], ◌∷◌, Bool, true, false, if◌then◌else◌, ◌==◌}

-- The flag: `true` when the lock is free.
pub record Lock : Type 0 where
  pub lock : Bool

unfoldable pub new : Bool → Lock
new val = record { lock = val }

abbrev pub loops_per_yield : ℕ
loops_per_yield = 1000

-- AtomicBool::compare_exchange(true, false): whether it succeeds, and the flag behind it.
abbrev pub compare_exchange : Bool → Bool × Bool
compare_exchange true = (true, false)
compare_exchange false = (false, false)

-- Where a thread is: outside, in the loop of `lock` with its count, or behind it.
pub data Stage : Type 0 where
  outside : Stage
  spinning : ℕ → Stage
  inside : Stage

abbrev pub next_loops : ℕ → ℕ
next_loops loops = if suc loops == loops_per_yield then 0 else suc loops

-- One round of the loop.
unfoldable pub lock_round : Lock → ℕ → Lock × Stage
lock_round l loops =
    let out = compare_exchange l.lock in
    (record { lock = out.1 }, if out.0 then inside else spinning (next_loops loops))

unfoldable pub unlock : Lock → Lock
unlock l = record { lock = true }

-- The next step of a thread in its stage: it calls `lock`, runs a round or calls `unlock`.
unfoldable pub advance : Lock → Stage → Lock × Stage
unfolding lock_round unlock
advance l outside = (l, spinning 0)
advance l (spinning loops) = lock_round l loops
advance l inside = (unlock l, outside)

pub record Threads : Type 0 where
  pub flag : Lock
  pub stage : ℕ → Stage

unfoldable pub step : ℕ → Threads → Threads
step t s =
    let out = advance s.flag (s.stage t) in
    record { flag = out.0; stage = λ u. if u == t then out.1 else s.stage u }

unfoldable pub run : List ℕ → Threads → Threads
unfolding step advance
run [] s = s
run (t ∷ ts) s = run ts (step t s)

-- Before the first call.
abbrev pub idle : Threads
unfolding new
idle = record { flag = new true; stage = λ t. outside }
