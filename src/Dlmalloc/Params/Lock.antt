-- ===== src/Dlmalloc/Params/Lock.antt =====
-- PREACTION and POSTACTION around a command.
use mathlib.Core.Path.{subst}
use mosalloc_rs.Base.{ℕ, ◌≡◌, refl, sym, ap, ◌∙◌, true, false, eq→==, Bool-cases, inl, inr}
use mosalloc_rs.Dlmalloc.State.{State, Cmd, abort, ◌>>=◌, ◌>>◌, pure}
use mosalloc_rs.Dlmalloc.State.Returns.{Returns, returns, bind}
use mosalloc_rs.Dlmalloc.Params.{use_lock, preaction, postaction}

module _ {A : Type 0} (P : A → State → Type 0) (c : Cmd A) (s : State) where
  -- A command that returns whatever the lock holds, and leaves the lock and the flags, returns
  -- between PREACTION and POSTACTION, and the lock is free afterwards.
  pub locked :
      s.mutex ≡ 0
      → ((m : ℕ)
          → Returns
              (λ a s'. (s'.mflags ≡ s.mflags) × (s'.mutex ≡ m) × P a (record s' { mutex = 0 }))
              (c (record s { mutex = m })))
      → Returns P ((preaction >> (c >>= λ a. postaction >> pure a)) s)
  locked free run = elim (Bool-cases (use_lock s)) [
    | inl lock ↦
        rw (lock, eq→== s.mutex 0 free)
          (bind (run 1)
            (λ a s' q. let same : use_lock s' ≡ true = rw q.0 lock in rw same (returns q.2)))
    | inr none ↦ rw none (
        bind (run s.mutex) (λ a s' q.
          let same : use_lock s' ≡ false = rw q.0 none in
          let zero : record s' { mutex = 0 } ≡ s' =
            ap (λ m. record s' { mutex = m }) (sym (q.1 ∙ free)) in
          rw same (returns (subst (P a) zero q.2))))
  ]

module _ (P : State → Type 0) (c : Cmd (Unit {0})) (s : State) where
  -- The same for a command without a result.
  pub locked_unit :
      s.mutex ≡ 0
      → ((m : ℕ)
          → Returns
              (λ _ s'. (s'.mflags ≡ s.mflags) × (s'.mutex ≡ m) × P (record s' { mutex = 0 }))
              (c (record s { mutex = m })))
      → Returns (λ _ s'. P s') ((preaction >> (c >> postaction)) s)
  locked_unit free run = elim (Bool-cases (use_lock s)) [
    | inl lock ↦
        rw (lock, eq→== s.mutex 0 free)
          (bind (run 1)
            (λ a s' q. let same : use_lock s' ≡ true = rw q.0 lock in rw same (returns q.2)))
    | inr none ↦ rw none (
        bind (run s.mutex) (λ a s' q.
          let same : use_lock s' ≡ false = rw q.0 none in
          let zero : record s' { mutex = 0 } ≡ s' =
            ap (λ m. record s' { mutex = m }) (sym (q.1 ∙ free)) in
          rw same (returns (subst P zero q.2))))
  ]

  -- A command that aborts whatever the lock holds aborts between PREACTION and POSTACTION.
  pub locked-abort :
      s.mutex ≡ 0
      → ((m : ℕ) → c (record s { mutex = m }) ≡ abort)
      → (preaction >> (c >> postaction)) s ≡ abort
  locked-abort free run = elim (Bool-cases (use_lock s)) [
    | inl lock ↦ rw (lock, eq→== s.mutex 0 free, run 1) refl
    | inr none ↦ rw (none, run s.mutex) refl
  ]
