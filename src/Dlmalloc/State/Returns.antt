-- ===== src/Dlmalloc/State/Returns.antt =====
-- Total correctness of a command: it ends with a result, for which a postcondition holds.
use mosalloc_rs.Base.{◌≡◌}
use mosalloc_rs.Dlmalloc.State.{State, Run, ok, abort, Cmd, and_then}

pub data Returns {A : Type 0} (P : A → State → Type 0) : Run A → Type 0 where
  returns : {a : A} {s : State} → P a s → Returns P (ok a s)

module _ {A : Type 0} {P : A → State → Type 0} where
  pub bind :
      {B : Type 0} {Q : B → State → Type 0} {r : Run A} {k : A → Cmd B}
      → Returns P r
      → ((a : A) (s : State) → P a s → Returns Q (k a s))
      → Returns Q (and_then r k)
  bind (returns p) next = next _ _ p

  pub mono :
      {Q : A → State → Type 0} {r : Run A}
      → Returns P r
      → ((a : A) (s : State) → P a s → Q a s)
      → Returns Q r
  mono (returns p) weaken = returns (weaken _ _ p)

  -- What follows a command that returns aborts, if it aborts on each of the results.
  pub aborts :
      {B : Type 0} {r : Run A} {k : A → Cmd B}
      → Returns P r
      → ((a : A) (s : State) → P a s → k a s ≡ abort)
      → and_then r k ≡ abort
  aborts (returns p) next = next _ _ p
