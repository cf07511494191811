-- ===== src/Mosalloc/Reserve.antt =====
-- The reservation of huge pages on a node (HTLBReq in src/utils/htlb.rs).
--
-- The files of sysfs are a parameter: `sizes` are the sizes that the kernel supports, `grant` says
-- how many pages there are of a size after a number was written to its file.
pub mod Granted
use mosalloc_rs.Base.{
  ℕ, List, [], ◌∷◌, ◌++◌, Bool, true, false, ◌||◌, not, Option, none, some, if◌then◌else◌, ◌==◌,
  ltb,
}

pub record Sysfs : Type 0 where
  pub sizes : List ℕ
  pub grant : (ℕ → ℕ) → ℕ → ℕ → ℕ
  pub pages : ℕ → ℕ

abbrev pub supported : ℕ → List ℕ → Bool
supported sz [] = false
supported sz (x ∷ xs) = sz == x || supported sz xs

-- A panic, or an error, which the callers unwrap, is `none`.
infixl 5 ◌>>=◌
abbrev pub ◌>>=◌ {ℓ κ} : {A : Type ℓ} {B : Type κ} → Option A → (A → Option B) → Option B
none >>= k = none
some a >>= k = k a

unfoldable pub set_htlb_pages_node : ℕ → ℕ → Sysfs → Option Sysfs
set_htlb_pages_node sz nr k =
    if not (supported sz k.sizes)
    then none
    else some (record k { pages = λ x. if x == sz then k.grant k.pages sz nr else k.pages x })

unfoldable pub get_htlb_pages_node : ℕ → Sysfs → Option ℕ
get_htlb_pages_node sz k = if not (supported sz k.sizes) then none else some (k.pages sz)

-- zip, and rev
abbrev pub zip : List ℕ → List ℕ → List (ℕ × ℕ)
zip [] ys = []
zip (x ∷ xs) [] = []
zip (x ∷ xs) (y ∷ ys) = (x, y) ∷ zip xs ys

abbrev pub rev : List (ℕ × ℕ) → List (ℕ × ℕ)
rev [] = []
rev (p ∷ ps) = rev ps ++ p ∷ []

-- The first loop: sizes that need more pages, each looked up when it is its turn.
abbrev pub raise_one : ℕ × ℕ → Sysfs → Option Sysfs
unfolding set_htlb_pages_node get_htlb_pages_node
raise_one (sz, req_sz) k = do
  has ← get_htlb_pages_node sz k
  if ltb has req_sz then set_htlb_pages_node sz req_sz k else some k

unfoldable pub raise_all : List (ℕ × ℕ) → Sysfs → Option Sysfs
raise_all [] k = some k
raise_all (p ∷ ps) k = do k1 ← raise_one p k; raise_all ps k1

-- The second loop.
unfoldable pub set_all : List (ℕ × ℕ) → Sysfs → Option Sysfs
unfolding set_htlb_pages_node
set_all [] k = some k
set_all (p ∷ ps) k = do k1 ← set_htlb_pages_node p.0 p.1 k; set_all ps k1

-- `any`
abbrev pub some_differs : List (ℕ × ℕ) → Sysfs → Bool
some_differs [] k = false
some_differs ((sz, req_sz) ∷ ps) k = not (req_sz == k.pages sz) || some_differs ps k

-- `true` for Ok.
unfoldable pub reserve_pages : List ℕ → Sysfs → Option (Sysfs × Bool)
unfolding raise_all set_all
reserve_pages req k = do
  k1 ← raise_all (zip (k.sizes) req) k
  k2 ← set_all (rev (zip (k.sizes) req)) k1
  some (k2, some_differs (zip k.sizes req) k2)
