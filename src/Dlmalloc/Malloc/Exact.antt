-- ===== src/Dlmalloc/Malloc/Exact.antt =====
-- Small requests for which a chunk of the same or the next size is free.
use native.Mathlib.Nat.{pow-suc, div-div-eq-div-mul}
use mosalloc_rs.Base.{
  ℕ, suc, ◌+◌, ◌-◌, ◌*◌, ◌/◌, ◌%◌, ◌^◌, ◌≤◌, ◌<◌, ◌≡◌, ◌≢◌, refl, sym, ap, ◌∙◌, ◌⊎◌, arith, ◌==◌,
  true, false, List, [], ◌∷◌, All, add64, le→leb, inl, inr,
}
use mosalloc_rs.Dlmalloc.State.{State, Mem, write, head_of, fd_of, bk_of, smallbin_at}
use mosalloc_rs.Dlmalloc.State.Returns.{Returns, returns, bind}
use mosalloc_rs.Dlmalloc.Sizes.{chunk2mem, request2size, max_small_request}
use mosalloc_rs.Dlmalloc.Chunk.{set_inuse_and_pinuse}
use mosalloc_rs.Dlmalloc.Index.{small_index, map_is_marked}
use mosalloc_rs.Dlmalloc.Smallbin.Chain.{IsChain-write, All-imp}
use mosalloc_rs.Dlmalloc.Smallbin.Bin.{IsBin, Linked, Checked, unlink_first_small_chunk-tail}
use mosalloc_rs.Dlmalloc.Malloc.{use_smallbin, malloc_locked}

-- The links of `y` are outside the chunk of `n` bytes at `p` and the head behind it.
abbrev pub Clear : ℕ → ℕ → ℕ → Type 0
Clear p n y = (y + 32 ≤ p) ⊎ (p + n ≤ y)

pub Linked-write :
    (m : Mem) (c v b : ℕ) (xs : List ℕ)
    → Linked m b xs
    → All (λ y. (fd_of y ≢ c) × (bk_of y ≢ c)) (b ∷ xs)
    → Linked (write m c v) b xs
Linked-write m c v b [] h off = tt
Linked-write m c v b (x ∷ xs) h off = IsChain-write m c v b (x ∷ xs) b h off.0.0 off.1 off.0.1

-- The head words of a chunk that is clear of the bin are none of the bin's links.
Linked-heads :
    (m : Mem) (p n v w b : ℕ) (xs : List ℕ)
    → 0 < n
    → Linked m b xs
    → All (Clear p n) (b ∷ xs)
    → Linked (write (write m (head_of p) v) (head_of (p + n)) w) b xs
Linked-heads m p n v w b xs pos h clear =
    Linked-write (write m (head_of p) v) (head_of (p + n)) w b xs
      (Linked-write m (head_of p) v b xs h (
        All-imp (Clear p n) (λ y. (fd_of y ≢ head_of p) × (bk_of y ≢ head_of p))
          (λ y k. ground arith) (b ∷ xs) clear))
      (All-imp (Clear p n) (λ y. (fd_of y ≢ head_of (p + n)) × (bk_of y ≢ head_of (p + n)))
        (λ y k. ground arith) (b ∷ xs) clear)

-- After set_inuse_and_pinuse of the chunk `p` of size `n`: it is in use, and bin `i` is as before.
record Handed (s : State) (i p n : ℕ) (xs : List ℕ) (s' : State) : Type 0 where
  rest : s' ≡ record s { mem = s'.mem }
  head : s'.mem (head_of p) ≡ n + 3
  behind : s'.mem (head_of (p + n)) % 2 ≡ 1
  left : IsBin s' i xs

set_inuse-Handed :
    (s : State) (i p n : ℕ) (xs : List ℕ)
    → 0 < n
    → n % 4 ≡ 0
    → p + n < 2 ^ 64
    → IsBin s i xs
    → All (Clear p n) (smallbin_at s i ∷ xs)
    → Returns (λ _ s'. Handed s i p n xs s') (set_inuse_and_pinuse p n s)
set_inuse-Handed s i p n xs pos al room bin clear =
    let place : add64 p n ≡ p + n = omega arith in
    rw place (
      returns (record {
        rest = refl;
        head = ground arith;
        behind = ground arith;
        left = record {
          marked = bin.marked;
          chain = Linked-heads s.mem p n _ _ (smallbin_at s i) xs pos bin.chain clear;
          apart = bin.apart;
        };
      }))

-- The first chunk `p` of bin `i` was handed out: it is in use with the size of the bin, and the
-- others are what is left of the bin.
pub record Pops (s : State) (i p : ℕ) (xs : List ℕ) (s' : State) : Type 0 where
  pub rest : s' ≡ record s { smallmap = s'.smallmap; mem = s'.mem }
  pub head : s'.mem (head_of p) ≡ i * 8 + 3
  pub behind : s'.mem (head_of (p + i * 8)) % 2 ≡ 1
  pub left : IsBin s' i xs

-- What one of the bins must hold, for its first chunk to be handed out.
pub record Holds (s : State) (i p : ℕ) (xs : List ℕ) : Type 0 where
  pub positive : 0 < i
  pub room : p + i * 8 + 16 < 2 ^ 64
  pub bin : IsBin s i (p ∷ xs)
  pub checked : Checked s xs
  pub clear : All (Clear p (i * 8)) (smallbin_at s i ∷ xs)

Pops-steps :
    (s s' s2 : State) (i p : ℕ) (xs : List ℕ)
    → s' ≡ record s { smallmap = s'.smallmap; mem = s'.mem }
    → Handed s' i p (i * 8) xs s2
    → Pops s i p xs s2
Pops-steps s s' s2 i p xs e h = record {
  rest =
      h.rest
      ∙ ap {A = State} (λ r. record r { mem = s2.mem }) e
      ∙ ap {A = ℕ} (λ k. record s { smallmap = k; mem = s2.mem })
          (ap (λ (r : State). r.smallmap) (sym h.rest));
  head = h.head;
  behind = h.behind;
  left = h.left;
}

use_smallbin-Pops :
    (s : State) (idx smallbits i p : ℕ) (xs : List ℕ)
    → i ≡ idx + (1 - smallbits % 2)
    → Holds s i p xs
    → Returns (λ mem s'. (mem ≡ p + 16) × Pops s i p xs s') (use_smallbin idx smallbits s)
unfolding use_smallbin chunk2mem
use_smallbin-Pops s idx smallbits i p xs e h =
    let first : s.mem (fd_of (smallbin_at s i)) ≡ p = h.bin.chain.0 in
    rw (← e, first)
      (bind (unlink_first_small_chunk-tail s i p xs h.bin h.checked) (λ _ s' q.
        bind
          (set_inuse-Handed s' i p (i * 8) xs (omega (arith, h.positive)) (omega arith)
            (omega (arith, h.room)) q.0 (rw (ap (λ (r : State). r.self) q.1.rest) h.clear))
          (λ _ s2 k.
            returns {a = add64 p 16}
              (omega (arith, h.room), Pops-steps s s' s2 i p xs q.1.rest k))))

shifted : (m i : ℕ) → m / 2 ^ suc i ≡ m / 2 ^ i / 2
shifted m i = rw (pow-suc 2 i, ← div-div-eq-div-mul m (2 ^ i) 2) refl

chosen_bits :
    (m idx i : ℕ)
    → (i ≡ idx) ⊎ ((i ≡ suc idx) × (map_is_marked m idx ≡ false))
    → map_is_marked m i ≡ true
    → (i ≡ idx + (1 - m / 2 ^ idx % 2)) × ((m / 2 ^ idx % 4 == 0) ≡ false)
chosen_bits m idx i (inl e) set =
    let bit : map_is_marked m idx ≡ true = rw (← e) set in (ground arith, ground arith)
chosen_bits m idx i (inr (e, free)) set =
    let bit : (m / 2 ^ idx / 2 % 2 == 1) ≡ true = rw (← shifted m idx, ← e) set in
    (ground arith, ground arith)

-- Bin `i` is the one that a request for `bytes` looks at: the bin of its size, or the next one if
-- that bin is not marked.
abbrev pub Chosen : State → ℕ → ℕ → Type 0
Chosen s bytes i =
    (i ≡ small_index (request2size bytes))
    ⊎ ((i ≡ suc (small_index (request2size bytes)))
        × (map_is_marked s.smallmap (small_index (request2size bytes)) ≡ false))

-- A small request whose bin, or, if that bin is not marked, whose next bin holds chunks (distinct,
-- apart from one another, above the least address, the first one clear of the others and of the
-- bin) gets the first of them as a whole: it is in use with the size of the bin, the chunk behind
-- it knows so, the bin holds the others, and only the smallmap and memory have changed.
pub malloc_locked-Pops :
    (s : State) (bytes i p : ℕ) (xs : List ℕ)
    → bytes ≤ max_small_request
    → Chosen s bytes i
    → Holds s i p xs
    → Returns (λ mem s'. (mem ≡ p + 16) × Pops s i p xs s') (malloc_locked bytes s)
unfolding malloc_locked request2size
malloc_locked-Pops s bytes i p xs small chosen h =
    let idx = small_index (request2size bytes) in
    let bits = s.smallmap / 2 ^ idx in
    let read = chosen_bits s.smallmap idx i chosen h.bin.marked in
    rw (le→leb bytes max_small_request small, read.1) (use_smallbin-Pops s idx bits i p xs read.0 h)
