-- ===== src/Mosalloc/System/Ends.antt =====
-- Total correctness of a command: it ends with a result, for which a postcondition holds.
use mosalloc_rs.Base.{◌≡◌, refl}
use mosalloc_rs.Mosalloc.System.{Sys, Run, ok, Cmd, and_then}

pub data Ends {A : Type 0} (P : A → Sys → Type 0) : Run A → Type 0 where
  ends : {a : A} {s : Sys} → P a s → Ends P (ok a s)

module _ {A : Type 0} {P : A → Sys → Type 0} where
  pub bind :
      {B : Type 0} {Q : B → Sys → Type 0} {r : Run A} {k : A → Cmd B}
      → Ends P r
      → ((a : A) (s : Sys) → P a s → Ends Q (k a s))
      → Ends Q (and_then r k)
  bind (ends p) next = next _ _ p

  pub mono :
      {Q : A → Sys → Type 0} {r : Run A} → Ends P r → ((a : A) (s : Sys) → P a s → Q a s) → Ends Q r
  mono (ends p) weaken = ends (weaken _ _ p)

  pub result : {r : Run A} → Ends P r → (a : A) × (s : Sys) × (r ≡ ok a s) × P a s
  result (ends {a} {s} p) = (a, s, refl, p)
