-- ===== src/Dlmalloc/Segment/Rings.antt =====
-- The bins of a new space.
use mosalloc_rs.Base.{ℕ, zero, suc, ◌+◌, ◌≤◌, ◌<◌, ◌≡◌, refl, ◌⊎◌, inl, inr, arith}
use mosalloc_rs.Dlmalloc.State.{State, write, fd_of, bk_of, smallbin_at}
use mosalloc_rs.Dlmalloc.State.Returns.{Returns, returns, mono}
use native.Mathlib.Decide.{ℕ_discrete}
use mosalloc_rs.Dlmalloc.Index.{nsmallbins}
use mosalloc_rs.Dlmalloc.Segment.{init_bins, init_bins_loop}

-- The bin headers `i` up to `i + n` are linked to themselves, and no other word is changed.
pub record IsRings (s : State) (i n : ℕ) (s' : State) : Type 0 where
  pub rest : s' ≡ record s { mem = s'.mem }
  pub rings :
      (j : ℕ)
      → i ≤ j
      → j < i + n
      → (s'.mem (fd_of (smallbin_at s j)) ≡ smallbin_at s j)
        × (s'.mem (bk_of (smallbin_at s j)) ≡ smallbin_at s j)
  pub words :
      (a : ℕ)
      → (a < fd_of (smallbin_at s i)) ⊎ (fd_of (smallbin_at s (i + n)) ≤ a)
      → s'.mem a ≡ s.mem a

outside :
    (s : State) (i n : ℕ) (s' : State)
    → ((a : ℕ)
        → (a < fd_of (smallbin_at s (i + 1))) ⊎ (fd_of (smallbin_at s (i + 1 + n)) ≤ a)
        → s'.mem a
          ≡ write
              (write s.mem (bk_of (smallbin_at s i)) (smallbin_at s i))
              (fd_of (smallbin_at s i))
              (smallbin_at s i)
              a)
    → (a : ℕ) → (a < fd_of (smallbin_at s i)) ⊎ (fd_of (smallbin_at s (i + suc n)) ≤ a)
    → s'.mem a ≡ s.mem a
outside s i n s' words a (inl low) = let e = words a (inl (omega arith)) in ground arith
outside s i n s' words a (inr high) = let e = words a (inr (omega arith)) in ground arith

init_bins_loop-IsRings :
    (n i : ℕ) (s : State) → Returns (λ _ s'. IsRings s i n s') (init_bins_loop n i s)
unfolding init_bins_loop
init_bins_loop-IsRings zero i s =
    returns (record { rest = refl; rings = λ j a b. absurd (omega arith); words = λ a h. refl })
init_bins_loop-IsRings (suc n) i s =
    let m =
      write (write s.mem (bk_of (smallbin_at s i)) (smallbin_at s i)) (fd_of (smallbin_at s i))
        (smallbin_at s i) in
    mono (init_bins_loop-IsRings n (i + 1) (record s { mem = m })) (λ _ s' q. record {
      rest = q.rest;
      rings = λ j lo hi. elim (ℕ_discrete j i) [
        | yes here ↦
            let fd = q.words (fd_of (smallbin_at s j)) (inl (omega arith)) in
            let bk = q.words (bk_of (smallbin_at s j)) (inl (omega arith)) in
            (ground arith, ground arith)
        | no later ↦ q.rings j (omega arith) (omega arith)
      ];
      words = λ a off. outside s i n s' q.words a off;
    })

-- init_bins returns with each of the 32 smallbins linked to itself in both directions, no word
-- outside of the bins changed, and no other field of the state.
pub init_bins-IsRings : (s : State) → Returns (λ _ s'. IsRings s 0 nsmallbins s') (init_bins s)
unfolding init_bins
init_bins-IsRings s = init_bins_loop-IsRings nsmallbins 0 s
