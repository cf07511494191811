-- ===== src/Base/Lists.antt =====
-- Lists measured and searched by native numbers.
use Prim.Native.Nat.{ℕ, zero, suc, ◌+◌}
use mathlib.Core.Path.{◌≡◌, refl, ap}
use mathlib.Core.Logic.{◌⊎◌, inl, inr}
use mathlib.Core.Bool.{Bool, true, false}
use mathlib.Core.Option.{Option, none, some}
use mathlib.Core.List.{List, [], ◌∷◌, ◌++◌}
use native.Mathlib.Omega.{arith}
use mosalloc_rs.Base.Tests.{if◌then◌else◌}

module _ {ℓ} {A : Type ℓ} where
  abbrev pub length : List A → ℕ
  length [] = 0
  length (x ∷ xs) = suc (length xs)

  pub length-append : (xs ys : List A) → length (xs ++ ys) ≡ length xs + length ys
  length-append [] ys = omega arith
  length-append (x ∷ xs) ys = omega (arith, length-append xs ys)

-- A predicate holds of every element.
abbrev pub All {ℓ κ} : {A : Type ℓ} → (A → Type κ) → List A → Type κ
All P [] = Unit
All P (x ∷ xs) = P x × All P xs

pub All-mono {ℓ κ μ} :
    {A : Type ℓ} {P : A → Type κ} {Q : A → Type μ} (xs : List A)
    → ((x : A) → P x → Q x)
    → All P xs
    → All Q xs
All-mono [] weaken h = tt
All-mono (x ∷ xs) weaken h = (weaken x h.0, All-mono xs weaken h.1)

pub All-append {ℓ κ} :
    {A : Type ℓ} (P : A → Type κ) (xs ys : List A) → All P xs → All P ys → All P (xs ++ ys)
All-append P [] ys h k = k
All-append P (x ∷ xs) ys h k = (h.0, All-append P xs ys h.1 k)

pub split-All {ℓ κ} :
    {A : Type ℓ} (P : A → Type κ) (xs ys : List A) → All P (xs ++ ys) → All P xs × All P ys
split-All P [] ys h = (tt, h)
split-All P (x ∷ xs) ys h = let parts = split-All P xs ys h.1 in ((h.0, parts.0), parts.1)

-- An index seen from one element further left.
abbrev pub further : Option ℕ → Option ℕ
further none = none
further (some i) = some (suc i)

-- Access by index. A write, a removal or an insertion out of bounds changes nothing.
module _ {ℓ} {A : Type ℓ} where
  abbrev pub get_elem? : List A → ℕ → Option A
  get_elem? [] i = none
  get_elem? (x ∷ xs) zero = some x
  get_elem? (x ∷ xs) (suc i) = get_elem? xs i

  abbrev pub set : List A → ℕ → A → List A
  set [] i v = []
  set (x ∷ xs) zero v = v ∷ xs
  set (x ∷ xs) (suc i) v = x ∷ set xs i v

  abbrev pub remove : List A → ℕ → List A
  remove [] i = []
  remove (x ∷ xs) zero = xs
  remove (x ∷ xs) (suc i) = x ∷ remove xs i

  abbrev pub insert : List A → ℕ → A → List A
  insert xs zero v = v ∷ xs
  insert [] (suc i) v = []
  insert (x ∷ xs) (suc i) v = x ∷ insert xs i v

  -- At the length of a prefix these meet what stands behind it.
  pub get_elem?-append :
      (xs : List A) (y : A) (ys : List A) → get_elem? (xs ++ y ∷ ys) (length xs) ≡ some y
  get_elem?-append [] y ys = refl
  get_elem?-append (x ∷ xs) y ys = get_elem?-append xs y ys

  pub set-append :
      (xs : List A) (y : A) (ys : List A) (v : A) → set (xs ++ y ∷ ys) (length xs) v ≡ xs ++ v ∷ ys
  set-append [] y ys v = refl
  set-append (x ∷ xs) y ys v = ap (λ r. x ∷ r) (set-append xs y ys v)

  pub remove-append :
      (xs : List A) (y : A) (ys : List A) → remove (xs ++ y ∷ ys) (length xs) ≡ xs ++ ys
  remove-append [] y ys = refl
  remove-append (x ∷ xs) y ys = ap (λ r. x ∷ r) (remove-append xs y ys)

  pub insert-append : (xs ys : List A) (v : A) → insert (xs ++ ys) (length xs) v ≡ xs ++ v ∷ ys
  insert-append [] ys v = refl
  insert-append (x ∷ xs) ys v = ap (λ r. x ∷ r) (insert-append xs ys v)

  -- One place further.
  pub get_elem?-append_next :
      (xs : List A) (y z : A) (zs : List A)
      → get_elem? (xs ++ y ∷ z ∷ zs) (suc (length xs)) ≡ some z
  get_elem?-append_next [] y z zs = refl
  get_elem?-append_next (x ∷ xs) y z zs = get_elem?-append_next xs y z zs

  pub set-append_next :
      (xs : List A) (y z : A) (zs : List A) (v : A)
      → set (xs ++ y ∷ z ∷ zs) (suc (length xs)) v ≡ xs ++ y ∷ v ∷ zs
  set-append_next [] y z zs v = refl
  set-append_next (x ∷ xs) y z zs v = ap (λ r. x ∷ r) (set-append_next xs y z zs v)

  pub remove-append_next :
      (xs : List A) (y z : A) (zs : List A)
      → remove (xs ++ y ∷ z ∷ zs) (suc (length xs)) ≡ xs ++ y ∷ zs
  remove-append_next [] y z zs = refl
  remove-append_next (x ∷ xs) y z zs = ap (λ r. x ∷ r) (remove-append_next xs y z zs)

  -- A list is empty or ends with an element.
  pub last-cases : (xs : List A) → (xs ≡ []) ⊎ ((init : List A) × (l : A) × (xs ≡ init ++ l ∷ []))
  last-cases [] = inl refl
  last-cases (x ∷ xs) = behind (last-cases xs)
    where
      behind :
          (xs ≡ []) ⊎ ((init : List A) × (l : A) × (xs ≡ init ++ l ∷ []))
          → (x ∷ xs ≡ []) ⊎ ((init : List A) × (l : A) × (x ∷ xs ≡ init ++ l ∷ []))
      behind (inl e) = inr ([], x, ap (λ r. x ∷ r) e)
      behind (inr (init, l, e)) = inr (x ∷ init, l, ap (λ r. x ∷ r) e)

  pub insert-append_next :
      (xs : List A) (y : A) (ys : List A) (v : A)
      → insert (xs ++ y ∷ ys) (suc (length xs)) v ≡ xs ++ y ∷ v ∷ ys
  insert-append_next [] y ys v = refl
  insert-append_next (x ∷ xs) y ys v = ap (λ r. x ∷ r) (insert-append_next xs y ys v)

module _ {ℓ} {A : Type ℓ} (p : A → Bool) where
  -- The index of the first element that passes the test.
  abbrev pub position : List A → Option ℕ
  position [] = none
  position (x ∷ xs) = if p x then some 0 else further (position xs)

  -- What a search finds: the first element that passes, behind those that do not.
  pub record Found (xs : List A) : Type ℓ where
    pub before : List A
    pub here : A
    pub behind : List A
    pub parts : xs ≡ before ++ here ∷ behind
    pub index : position xs ≡ some (length before)
    pub fails : All (λ x. p x ≡ false) before
    pub passes : p here ≡ true

  pub position-cases : (xs : List A) → ((position xs ≡ none) × All (λ x. p x ≡ false) xs) ⊎ Found xs
  position-cases [] = inl (refl, tt)
  position-cases (x ∷ xs) = step (p x) refl (position-cases xs)
    where
      step :
          (b : Bool)
          → p x ≡ b
          → ((position xs ≡ none) × All (λ y. p y ≡ false) xs) ⊎ Found xs
          → ((position (x ∷ xs) ≡ none) × All (λ y. p y ≡ false) (x ∷ xs)) ⊎ Found (x ∷ xs)
      step true e r = inr (record {
        before = [];
        here = x;
        behind = xs;
        parts = refl;
        index = rw e;
        fails = tt;
        passes = e;
      })
      step false e (inl (none_there, all)) = inl (rw (e, none_there) refl, (e, all))
      step false e (inr f) = inr (record {
        before = x ∷ f.before;
        here = f.here;
        behind = f.behind;
        parts = ap (λ r. x ∷ r) f.parts;
        index = rw (e, f.index) refl;
        fails = (e, f.fails);
        passes = f.passes;
      })

  pub position-append :
      (xs : List A) (y : A) (ys : List A)
      → All (λ x. p x ≡ false) xs
      → p y ≡ true
      → position (xs ++ y ∷ ys) ≡ some (length xs)
  position-append [] y ys fails passes = rw passes refl
  position-append (x ∷ xs) y ys fails passes =
      rw (fails.0, position-append xs y ys fails.1 passes) refl
