-- ===== src/Dlmalloc/Smallbin/Unlink.antt =====
-- Chains under the writes of the link and unlink macros, and what the run-time checks of unlinking
-- read of a chain.
use mosalloc_rs.Base.{ℕ, ◌+◌, ◌≡◌, ◌≢◌, List, [], ◌∷◌, ◌++◌, arith, All}
use mosalloc_rs.Dlmalloc.State.{Mem, write, fd_of, bk_of}
use mosalloc_rs.Dlmalloc.Smallbin.Chain.{
  Apart, Distinct, IsChain, last_of, first_of_chain, last_of-All, first-All, All-append_left,
  All-append_right, All-imp, IsChain-write_fd, IsChain-write_bk,
}

-- `F->bk = B; B->fd = F;`
abbrev pub join : Mem → ℕ → ℕ → Mem
join m b f = write (write m (bk_of f) b) (fd_of b) f

module _ (m : Mem) (p z : ℕ) where
  IsChain-join_head :
      (a : ℕ) (zs : List ℕ)
      → IsChain m p zs z
      → All (Apart a) zs
      → All (Apart z) zs
      → Distinct zs
      → a ≢ z + 8
      → IsChain (join m a (first_of_chain zs z)) a zs z
  IsChain-join_head a [] h aa az d n = ground arith
  IsChain-join_head a (y ∷ r) h aa az d n = (
    ground arith,
    ground arith,
    IsChain-write_fd (write m (bk_of y) a) a y y r z
        (IsChain-write_bk m y a y r z h.2 (omega arith) d.0 (omega arith)) (omega arith) aa.1 n,
  )

  fd-first : (a : ℕ) (zs : List ℕ) → IsChain m a zs z → m (fd_of a) ≡ first_of_chain zs z
  fd-first a [] h = h.0
  fd-first a (y ∷ r) h = h.0

  -- Between its neighbours in the chain, `p` is left out.
  pub IsChain-join :
      (a : ℕ) (ys zs : List ℕ)
      → IsChain m a (ys ++ p ∷ zs) z
      → All (Apart a) (ys ++ p ∷ zs)
      → All (Apart z) (ys ++ p ∷ zs)
      → Distinct (ys ++ p ∷ zs)
      → a ≢ z + 8
      → (m (fd_of p) ≡ first_of_chain zs z)
        × (m (bk_of p) ≡ last_of a ys)
        × IsChain (join m (last_of a ys) (first_of_chain zs z)) a (ys ++ zs) z
  IsChain-join a [] zs h aa az d n =
      (fd-first p zs h.2, h.1, IsChain-join_head a zs h.2 aa.1 az.1 d.1 n)
  IsChain-join a (y ∷ ys) zs h aa az d n =
      let ih = IsChain-join y ys zs h.2 d.0 az.1 d.1 (omega arith) in
      let behind =
        λ (P : ℕ → Type 0) (k : All P (ys ++ p ∷ zs)). (All-append_right P ys (p ∷ zs) k).1 in
      let f = first_of_chain zs z in
      let b = last_of y ys in
      let af : a ≢ f + 8 =
        first-All (λ q. a ≢ q + 8) zs z
          (All-imp (Apart a) (λ q. a ≢ q + 8) (λ q k. omega arith) zs (behind (Apart a) aa.1)) n in
      let yf : y ≢ f =
        first-All (λ q. y ≢ q) zs z
          (All-imp (Apart y) (λ q. y ≢ q) (λ q k. omega arith) zs (behind (Apart y) d.0))
          (omega arith) in
      let ab : a ≢ b =
        last_of-All (λ q. a ≢ q) y ys (omega arith)
          (All-imp (Apart a) (λ q. a ≢ q) (λ q k. omega arith) ys
            (All-append_left (Apart a) ys (p ∷ zs) aa.1)) in
      let yb : y + 8 ≢ b =
        last_of-All (λ q. y + 8 ≢ q) y ys (omega arith)
          (All-imp (Apart y) (λ q. y + 8 ≢ q) (λ q k. omega arith) ys
            (All-append_left (Apart y) ys (p ∷ zs) d.0)) in
      (ih.0, ih.1, (ground arith, ground arith, ih.2))

  -- What the checks read: the link back from the chunk behind, and the link from the one before.
  pub bk-first : (a : ℕ) (zs : List ℕ) → IsChain m a zs z → m (bk_of (first_of_chain zs z)) ≡ a
  bk-first a [] h = h.1
  bk-first a (y ∷ r) h = h.1

  pub fd-last :
      (a : ℕ) (ys zs : List ℕ) → IsChain m a (ys ++ p ∷ zs) z → m (fd_of (last_of a ys)) ≡ p
  fd-last a [] zs h = h.0
  fd-last a (y ∷ ys) zs h = fd-last y ys zs h.2

  pub last-ne-first :
      (a : ℕ) (ys zs : List ℕ)
      → All (Apart a) (ys ++ p ∷ zs)
      → All (Apart z) (ys ++ p ∷ zs)
      → Distinct (ys ++ p ∷ zs)
      → a ≢ z
      → last_of a ys ≢ first_of_chain zs z
  last-ne-first a [] zs aa az d n =
      first-All (λ q. a ≢ q) zs z (All-imp (Apart a) (λ q. a ≢ q) (λ q k. omega arith) zs aa.1) n
  last-ne-first a (y ∷ ys) zs aa az d n = last-ne-first y ys zs d.0 az.1 d.1 (omega arith)

  -- The four writes that put `p` in front of the first chunk `x`.
  pub IsChain-push :
      (b x : ℕ) (xs : List ℕ)
      → z ≡ b
      → IsChain m b (x ∷ xs) z
      → All (Apart p) (b ∷ x ∷ xs)
      → All (Apart b) (x ∷ xs)
      → All (Apart x) xs
      → IsChain
          (write (write (write (write m (fd_of b) p) (bk_of x) p) (fd_of p) x) (bk_of p) b)
          b
          (p ∷ x ∷ xs)
          z
  IsChain-push b x xs e h ap ab ax = (
    ground arith,
    ground arith,
    (
      ground arith,
      ground arith,
      IsChain-write_bk (write (write (write m (fd_of b) p) (bk_of x) p) (fd_of p) x) p b x xs z
          (IsChain-write_fd (write (write m (fd_of b) p) (bk_of x) p) p x x xs z
            (IsChain-write_bk (write m (fd_of b) p) x p x xs z
              (IsChain-write_fd m b p x xs z h.2 (omega arith) ab.1 (omega arith)) (omega arith) ax
              (omega arith))
            (omega arith) ap.1.1 (omega arith))
          (omega arith) ap.1.1 (omega arith),
    ),
  )

module _ (P : ℕ → Type 0) (p : ℕ) where
  pub All-remove : (ys zs : List ℕ) → All P (ys ++ p ∷ zs) → All P (ys ++ zs)
  All-remove [] zs h = h.1
  All-remove (y ∷ ys) zs h = (h.0, All-remove ys zs h.1)

pub Distinct-remove : (p : ℕ) (ys zs : List ℕ) → Distinct (ys ++ p ∷ zs) → Distinct (ys ++ zs)
Distinct-remove p [] zs h = h.1
Distinct-remove p (y ∷ ys) zs h = (All-remove (Apart y) p ys zs h.0, Distinct-remove p ys zs h.1)
