-- ===== src/Dlmalloc/Smallbin/Chain.antt =====
-- Chains of chunks linked by fd and bk, and what writes leave of them.
use mosalloc_rs.Base.{ℕ, ◌+◌, ◌≡◌, ◌≢◌, List, [], ◌∷◌, ◌++◌, arith, All}
use mosalloc_rs.Dlmalloc.State.{Mem, write, fd_of, bk_of}

-- The link words of two chunks do not overlap.
abbrev pub Apart : ℕ → ℕ → Type 0
Apart p q = (p ≢ q) × (p + 8 ≢ q) × (q + 8 ≢ p)

abbrev pub Distinct : List ℕ → Type 0
Distinct [] = Unit
Distinct (x ∷ xs) = All (Apart x) xs × Distinct xs

-- From `a` the fd links lead through `xs` to `z`, and the bk links lead back.
abbrev pub IsChain : Mem → ℕ → List ℕ → ℕ → Type 0
IsChain m a [] z = (m (fd_of a) ≡ z) × (m (bk_of z) ≡ a)
IsChain m a (x ∷ xs) z = (m (fd_of a) ≡ x) × (m (bk_of x) ≡ a) × IsChain m x xs z

abbrev pub last_of : ℕ → List ℕ → ℕ
last_of a [] = a
last_of a (x ∷ xs) = last_of x xs

abbrev pub first_of_chain : List ℕ → ℕ → ℕ
first_of_chain [] z = z
first_of_chain (x ∷ xs) z = x

pub last_of-All : (P : ℕ → Type 0) (a : ℕ) (xs : List ℕ) → P a → All P xs → P (last_of a xs)
last_of-All P a [] h hs = h
last_of-All P a (x ∷ xs) h hs = last_of-All P x xs hs.0 hs.1

pub first-All : (P : ℕ → Type 0) (xs : List ℕ) (z : ℕ) → All P xs → P z → P (first_of_chain xs z)
first-All P [] z hs h = h
first-All P (x ∷ xs) z hs h = hs.0

pub All-append_left : (P : ℕ → Type 0) (xs ys : List ℕ) → All P (xs ++ ys) → All P xs
All-append_left P [] ys h = tt
All-append_left P (x ∷ xs) ys h = (h.0, All-append_left P xs ys h.1)

pub All-append_right : (P : ℕ → Type 0) (xs ys : List ℕ) → All P (xs ++ ys) → All P ys
All-append_right P [] ys h = h
All-append_right P (x ∷ xs) ys h = All-append_right P xs ys h.1

pub All-append : (P : ℕ → Type 0) (xs ys : List ℕ) → All P xs → All P ys → All P (xs ++ ys)
All-append P [] ys h k = k
All-append P (x ∷ xs) ys h k = (h.0, All-append P xs ys h.1 k)

-- A write to a word that is no link of the chain.
pub IsChain-write :
    (m : Mem) (c v a : ℕ) (xs : List ℕ) (z : ℕ)
    → IsChain m a xs z
    → fd_of a ≢ c
    → All (λ y. (fd_of y ≢ c) × (bk_of y ≢ c)) xs
    → bk_of z ≢ c
    → IsChain (write m c v) a xs z
IsChain-write m c v a [] z h ha hs hz = ground arith
IsChain-write m c v a (x ∷ xs) z h ha hs hz =
    (ground arith, ground arith, IsChain-write m c v x xs z h.2 hs.0.0 hs.1 hz)

module _ (P Q : ℕ → Type 0) (imp : (y : ℕ) → P y → Q y) where
  pub All-imp : (xs : List ℕ) → All P xs → All Q xs
  All-imp [] h = tt
  All-imp (x ∷ xs) h = (imp x h.0, All-imp xs h.1)

-- Writes to the links of a chunk that is apart from all chunks of the chain.
pub IsChain-write_fd :
    (m : Mem) (p v a : ℕ) (xs : List ℕ) (z : ℕ)
    → IsChain m a xs z
    → p ≢ a
    → All (Apart p) xs
    → (p ≢ z + 8)
    → IsChain (write m (fd_of p) v) a xs z
IsChain-write_fd m p v a xs z h ha hs hz =
    IsChain-write m (fd_of p) v a xs z h (omega arith)
      (All-imp (Apart p) (λ y. (fd_of y ≢ fd_of p) × (bk_of y ≢ fd_of p)) (λ y q. omega arith) xs
        hs)
      (omega arith)

pub IsChain-write_bk :
    (m : Mem) (p v a : ℕ) (xs : List ℕ) (z : ℕ)
    → IsChain m a xs z
    → (p + 8 ≢ a)
    → All (Apart p) xs
    → p ≢ z
    → IsChain (write m (bk_of p) v) a xs z
IsChain-write_bk m p v a xs z h ha hs hz =
    IsChain-write m (bk_of p) v a xs z h (omega arith)
      (All-imp (Apart p) (λ y. (fd_of y ≢ bk_of p) × (bk_of y ≢ bk_of p)) (λ y q. omega arith) xs
        hs)
      (omega arith)
