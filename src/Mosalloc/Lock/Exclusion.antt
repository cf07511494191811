-- ===== src/Mosalloc/Lock/Exclusion.antt =====
-- At most one thread is behind the lock.
use mosalloc_rs.Base.{
  ℕ, ◌<◌, ◌≡◌, ◌≢◌, refl, sym, ◌∙◌, ap, ◌⊎◌, arith, List, [], ◌∷◌, Bool, true, false, if◌then◌else◌,
  ◌==◌, eq→==, ne→==, inl, inr,
}
use native.Mathlib.Decide.{ℕ_discrete}
use mosalloc_rs.Mosalloc.Lock.{
  Lock, Stage, outside, spinning, inside, Threads, next_loops, loops_per_yield, lock_round, unlock,
  advance, step, run,
}

abbrev pub StageFits : Stage → Type 0
StageFits outside = Unit
StageFits (spinning loops) = loops < loops_per_yield
StageFits inside = Unit

-- Nobody is behind a free lock, one thread is behind a held one, and the count stays small.
pub record IsExclusive (s : Threads) : Type 0 where
  pub free : s.flag.lock ≡ true → (t : ℕ) → s.stage t ≢ inside
  pub held : s.flag.lock ≡ false → (t : ℕ) × (s.stage t ≡ inside)
  pub one : (t u : ℕ) → s.stage t ≡ inside → s.stage u ≡ inside → t ≡ u
  pub bound : (t : ℕ) → StageFits (s.stage t)

-- What keeps the invariant when thread `t` goes on to stage `st` and leaves the flag `l`.
moves :
    (t : ℕ) (s : Threads) (l : Lock) (st : Stage)
    → IsExclusive s
    → (l.lock ≡ true → (st ≢ inside) × ((s.flag.lock ≡ true) ⊎ (s.stage t ≡ inside)))
    → (l.lock ≡ false → (st ≡ inside) ⊎ ((s.flag.lock ≡ false) × (s.stage t ≢ inside)))
    → (st ≡ inside → s.flag.lock ≡ true)
    → StageFits st
    → IsExclusive (record { flag = l; stage = λ u. if u == t then st else s.stage u })
moves t s l st w free held entered fits = record {
  free = λ f u. elim (ℕ_discrete u t) [
    | yes same ↦ rw (eq→== u t same) (free f).0
    | no other ↦ rw (ne→== u t other) (nobody u other (free f).1)
  ];
  held = λ f. somebody (held f);
  one = λ u v. elim (ℕ_discrete u t) [
    | yes same ↦ elim (ℕ_discrete v t) [
      | yes same' ↦ λ _ _. same ∙ sym same'
      | no other ↦ rw (eq→== u t same, ne→== v t other) (λ h k. absurd (w.free (entered h) v k))
    ]
    | no other ↦ elim (ℕ_discrete v t) [
      | yes same ↦ rw (ne→== u t other, eq→== v t same) (λ h k. absurd (w.free (entered k) u h))
      | no other' ↦ rw (ne→== u t other, ne→== v t other') (w.one u v)
    ]
  ];
  bound = λ u. elim (ℕ_discrete u t) [
    | yes same ↦ rw (eq→== u t same) fits
    | no other ↦ rw (ne→== u t other) (w.bound u)
  ];
}
  where
    nobody : (u : ℕ) → u ≢ t → (s.flag.lock ≡ true) ⊎ (s.stage t ≡ inside) → s.stage u ≢ inside
    nobody u other (inl f) = w.free f u
    nobody u other (inr h) = λ k. other (w.one u t k h)

    somebody :
        (st ≡ inside) ⊎ ((s.flag.lock ≡ false) × (s.stage t ≢ inside))
        → (u : ℕ) × ((if u == t then st else s.stage u) ≡ inside)
    somebody (inl here) = (t, rw (eq→== t t refl) here)
    somebody (inr (f, out)) =
        let (u, h) = w.held f in (u, rw (ne→== u t (λ e. out (ap s.stage (sym e) ∙ h))) h)

next_loops_fits : (n : ℕ) → n < loops_per_yield → next_loops n < loops_per_yield
next_loops_fits n h = ground arith

pub step-IsExclusive : (t : ℕ) (s : Threads) → IsExclusive s → IsExclusive (step t s)
unfolding step lock_round unlock advance
step-IsExclusive t s w = from (s.stage t) refl s.flag.lock refl
  where
    from :
        (st : Stage)
        → s.stage t ≡ st
        → (b : Bool) → s.flag.lock ≡ b
        → IsExclusive (record {
          flag = (advance (record { lock = b }) st).0;
          stage = λ u. if u == t then (advance (record { lock = b }) st).1 else s.stage u;
        })
    from outside e b f =
        moves t s (record { lock = b }) (spinning 0) w (λ h. (λ k. absurd (cc), inl (f ∙ h)))
          (λ h. inr (f ∙ h, λ k. absurd (cc))) (λ h. absurd (cc)) (omega arith)
    from (spinning n) e true f =
        moves t s (record { lock = false }) inside w (λ h. absurd (cc)) (λ h. inl refl) (λ h. f) tt
    from (spinning n) e false f =
        moves t s (record { lock = false }) (spinning (next_loops n)) w (λ h. absurd (cc))
          (λ h. inr (f, λ k. absurd (cc))) (λ h. absurd (cc))
          (next_loops_fits n (rw e at (w.bound t)))
    from inside e b f =
        moves t s (record { lock = true }) outside w (λ h. (λ k. absurd (cc), inr e))
          (λ h. absurd (cc)) (λ h. absurd (cc)) tt

-- If nobody is behind a free lock, one thread and no other is behind a held one, and the count of
-- each waiting thread is below 1000, then the same holds after any schedule of steps of any
-- threads.
pub run-IsExclusive : (ts : List ℕ) (s : Threads) → IsExclusive s → IsExclusive (run ts s)
unfolding run
run-IsExclusive [] s w = w
run-IsExclusive (t ∷ ts) s w = run-IsExclusive ts (step t s) (step-IsExclusive t s w)
