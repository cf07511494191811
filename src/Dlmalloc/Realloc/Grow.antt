-- ===== src/Dlmalloc/Realloc/Grow.antt =====
-- Growing a chunk in place, into top.
use mosalloc_rs.Base.{
  ℕ, ◌+◌, ◌-◌, ◌%◌, ◌≤◌, ◌<◌, ◌≡◌, ◌≢◌, refl, arith, true, false, add64, sub64, eq→==, lt→ltb,
  lt→leb, le→leb,
}
use mosalloc_rs.Dlmalloc.State.{State, head_of}
use mosalloc_rs.Dlmalloc.State.Returns.{Returns, returns}
use mosalloc_rs.Dlmalloc.Chunk.{head_size, head_is_inuse, head_is_mmapped, head_pinuse}
use mosalloc_rs.Dlmalloc.Malloc.Top.{IsTop}
use mosalloc_rs.Dlmalloc.Realloc.{try_realloc_chunk}

-- A chunk of `n` bytes at `p`, in use, in front of top. `bit` says whether the chunk in front of it
-- is in use.
pub record BeforeTop (s : State) (p n bit : ℕ) : Type 0 where
  pub aligned : n % 16 ≡ 0
  pub positive : 0 < n
  pub bit_value : bit < 2
  pub head : s.mem (head_of p) ≡ n + 2 + bit
  pub next : p + n ≡ s.top
  pub address : s.least_addr ≤ p

-- The chunk has grown to `nb` bytes, top has moved up, and its end is where it was.
pub record Grows (s : State) (p n nb bit : ℕ) (s' : State) : Type 0 where
  pub rest : s' ≡ record s { top = s'.top; topsize = s'.topsize; mem = s'.mem }
  pub head : s'.mem (head_of p) ≡ nb + 2 + bit
  pub top : s'.top ≡ p + nb
  pub end : s'.top + s'.topsize ≡ s.top + s.topsize
  pub top_head : s'.mem (head_of s'.top) ≡ s'.topsize + 1
  pub words : (a : ℕ) → a ≢ head_of p → a ≢ head_of (p + nb) → s'.mem a ≡ s.mem a

-- A chunk in use in front of a well-formed top, at or above the least address, that is to grow to
-- an aligned size smaller than the chunk and top together stays where it is: it has the new size
-- and its bit for the chunk in front of it, top begins behind it and ends where it ended, and no
-- word has changed but the heads of the chunk and of top.
pub try_realloc_chunk-Grows :
    (s : State) (p n nb bit can_move : ℕ)
    → IsTop s
    → BeforeTop s p n bit
    → nb % 16 ≡ 0
    → n < nb
    → nb < n + s.topsize
    → Returns (λ newp s'. (newp ≡ p) × Grows s p n nb bit s') (try_realloc_chunk p nb can_move s)
unfolding try_realloc_chunk
try_realloc_chunk-Grows s p n nb bit can_move t b al more fit =
    let size : head_size (n + 2 + bit) ≡ n = omega (arith, b.aligned, b.bit_value) in
    let used : head_is_inuse (n + 2 + bit) ≡ true = ground (arith, b.aligned, b.bit_value) in
    let unmapped : head_is_mmapped (n + 2 + bit) ≡ false = ground (arith, b.aligned, b.bit_value) in
    let next : add64 p n ≡ s.top = omega (arith, b.next, t.room) in
    let odd : head_pinuse (s.topsize + 1) ≡ true = ground (arith, t.size_aligned) in
    let all : add64 n s.topsize ≡ n + s.topsize = omega (arith, b.next, t.room) in
    let left : sub64 (n + s.topsize) nb ≡ n + s.topsize - nb = omega (arith, b.next, t.room) in
    let place : add64 p nb ≡ p + nb = omega (arith, b.next, t.room) in
    rw
      (
        b.head,
        size,
        next,
        le→leb s.least_addr p b.address,
        used,
        lt→ltb p s.top (omega (arith, b.next, b.positive)),
        t.head,
        odd,
        unmapped,
        lt→leb nb n more,
        eq→== s.top s.top refl,
        all,
        lt→ltb nb (n + s.topsize) fit,
        left,
        place,
        b.head,
      )
      (returns (
        refl,
        record {
          rest = refl;
          head = ground (arith, b.aligned, b.bit_value);
          top = refl;
          end = omega (arith, b.next);
          top_head = ground (arith, t.size_aligned, b.aligned);
          words = λ a x y. ground arith;
        },
      ))
