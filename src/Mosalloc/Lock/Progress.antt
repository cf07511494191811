-- ===== src/Mosalloc/Lock/Progress.antt =====
-- Somebody gets behind a lock that is asked for.
use mosalloc_rs.Base.{
  ℕ, ◌≡◌, ◌≢◌, refl, sym, ◌∙◌, ap, arith, List, [], ◌∷◌, Bool, true, false, ◌==◌, eq→==, ne→==,
  ◌||◌, ◌⊎◌, inl, inr, length, ◌≤◌, Bool-cases,
}
use native.Mathlib.Decide.{ℕ_discrete}
use mosalloc_rs.Mosalloc.Lock.{
  Lock, Stage, outside, spinning, inside, Threads, lock_round, unlock, advance, step, run,
}
use mosalloc_rs.Mosalloc.Lock.Exclusion.{IsExclusive}

-- At the start of the schedule, or after some of its steps, a thread is behind the lock.
abbrev pub Enters : List ℕ → Threads → Type 0
Enters [] s = (u : ℕ) × (s.stage u ≡ inside)
Enters (t ∷ ts) s = ((u : ℕ) × (s.stage u ≡ inside)) ⊎ Enters ts (step t s)

abbrev occurs : ℕ → List ℕ → Bool
occurs t [] = false
occurs t (u ∷ us) = t == u || occurs t us

Enters-now : (ts : List ℕ) (s : Threads) (u : ℕ) → s.stage u ≡ inside → Enters ts s
Enters-now [] s u h = (u, h)
Enters-now (t ∷ ts) s u h = inl (u, h)

module _ (t : ℕ) (s : Threads) where
  -- A round of the loop gets behind a free lock.
  pub step-free :
      (n : ℕ) → s.stage t ≡ spinning n → s.flag.lock ≡ true → (step t s).stage t ≡ inside
  unfolding step lock_round advance
  step-free n e f = rw (e, f, eq→== t t refl) refl

  pub step-other : (u : ℕ) → t ≢ u → (step u s).stage t ≡ s.stage t
  unfolding step
  step-other u h = rw (ne→== t u h) refl

  -- The step that releases, or a call, leaves the lock free.
  pub step-release : s.stage t ≡ inside → (step t s).flag.lock ≡ true
  unfolding step unlock advance
  step-release e = rw (e) refl

  step-outside : s.stage t ≡ outside → (step t s).flag ≡ s.flag
  unfolding step advance
  step-outside e = rw (e) refl

-- A free lock that a thread spins for: as soon as this thread has its turn, some thread has got in.
pub run-Enters :
    (ts : List ℕ) (t n : ℕ) (s : Threads)
    → s.stage t ≡ spinning n
    → s.flag.lock ≡ true
    → occurs t ts ≡ true
    → Enters ts s
run-Enters [] t n s e f h = absurd (cc)
run-Enters (u ∷ us) t n s e f h = elim (ℕ_discrete t u) [
  | yes same ↦ inr (Enters-now us (step u s) t (rw (← same) (step-free t s n e f)))
  | no other ↦
      let later : occurs t us ≡ true = rw (ne→== t u other) at h in
      by_stage (s.stage u) refl (λ k.
        run-Enters us t n (step u s) (step-other t s u other ∙ e)
          (ap (λ (l : Lock). l.lock) (step-outside u s k) ∙ f) later)
]
  where
    by_stage :
        (st : Stage)
        → s.stage u ≡ st
        → (s.stage u ≡ outside → Enters us (step u s))
        → Enters (u ∷ us) s
    by_stage outside k calls = inr (calls k)
    by_stage (spinning m) k calls = inr (Enters-now us (step u s) u (step-free u s m k f))
    by_stage inside k calls = inl (u, k)

no_spin : {n : ℕ} → spinning n ≢ inside
no_spin h = cc

-- If nobody is behind a free lock and one thread is behind a held one, then for each thread in the
-- loop of `lock` there is a schedule of at most two steps after which it is behind the lock.
pub run-reaches :
    (t n : ℕ) (s : Threads)
    → IsExclusive s
    → s.stage t ≡ spinning n
    → (ts : List ℕ) × (length ts ≤ 2) × ((run ts s).stage t ≡ inside)
unfolding run
run-reaches t n s w e = elim (Bool-cases s.flag.lock) [
  | inl free ↦ (t ∷ [], omega arith, step-free t s n e free)
  | inr held ↦
      let (u, h) = w.held held in
      let other : t ≢ u = λ same. no_spin (sym e ∙ ap s.stage same ∙ h) in
      (
        u ∷ t ∷ [],
        omega arith,
        step-free t (step u s) n (step-other t s u other ∙ e) (step-release u s h),
      )
]
