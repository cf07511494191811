-- ===== src/Dlmalloc/Malloc/Victim.antt =====
-- Allocation from the designated victim.
use native.Mathlib.Decide.{dec_lt}
use mosalloc_rs.Base.{
  ℕ, ◌+◌, ◌-◌, ◌%◌, ◌^◌, ◌≤◌, ◌<◌, ◌≡◌, refl, ◌⊎◌, inl, inr, arith, add64, sub64, lt→leb, le→leb,
}
use mosalloc_rs.Dlmalloc.State.{State, head_of}
use mosalloc_rs.Dlmalloc.State.Returns.{Returns, returns}
use mosalloc_rs.Dlmalloc.Sizes.{chunk2mem, min_chunk_size}
use mosalloc_rs.Dlmalloc.Malloc.{use_dv}

-- The memory of `s.dv` is split into a chunk of `size` bytes in use, at its lower end, and what is
-- left of the designated victim in `s'`.
pub record SplitsDv (s : State) (nb : ℕ) (s' : State) : Type 0 where
  pub size : ℕ
  pub head : s'.mem (head_of s.dv) ≡ size + 3
  pub enough : nb ≤ size
  pub waste : size < nb + min_chunk_size
  pub all : size + s'.dvsize ≡ s.dvsize
  pub rest : s' ≡ record s { dv = s'.dv; dvsize = s'.dvsize; mem = s'.mem }
  pub left :
      ((s'.dv ≡ 0) × (s'.dvsize ≡ 0) × (s'.mem (head_of (s.dv + s.dvsize)) % 2 ≡ 1))
      ⊎ ((s'.dv ≡ s.dv + size)
          × (min_chunk_size ≤ s'.dvsize)
          × (s'.mem (head_of s'.dv) ≡ s'.dvsize + 1)
          × (s'.mem (s.dv + s.dvsize) ≡ s'.dvsize))

-- An aligned positive size that fits an aligned designated victim inside the address space is
-- served from its start. The chunk in use is at least as large and less than a minimal chunk
-- larger, its size and that of the new designated victim add up to the old one, and the new one is
-- either none or at least a minimal chunk, behind the chunk in use, with its head and foot
-- written; only dv, dvsize and memory have changed.
pub use_dv-SplitsDv :
    (s : State) (nb : ℕ)
    → nb % 16 ≡ 0
    → 0 < nb
    → nb ≤ s.dvsize
    → s.dvsize % 16 ≡ 0
    → s.dv + s.dvsize + 16 < 2 ^ 64
    → Returns (λ mem s'. (mem ≡ s.dv + 16) × SplitsDv s nb s') (use_dv nb s)
unfolding use_dv chunk2mem
use_dv-SplitsDv s nb al pos fit dval room =
    let n : sub64 s.dvsize nb ≡ s.dvsize - nb = omega arith in
    let r : add64 s.dv nb ≡ s.dv + nb = omega arith in
    let foot : add64 (s.dv + nb) (s.dvsize - nb) ≡ s.dv + s.dvsize = omega arith in
    let behind : add64 s.dv s.dvsize ≡ s.dv + s.dvsize = omega arith in
    elim (dec_lt (s.dvsize - nb) min_chunk_size) [
      | yes small ↦
          rw (n, lt→leb min_chunk_size (s.dvsize - nb) small, behind)
            (returns (
              omega arith,
              record {
                size = s.dvsize;
                head = ground arith;
                enough = fit;
                waste = omega arith;
                all = omega arith;
                rest = refl;
                left = inl (refl, refl, ground arith);
              },
            ))
      | no large ↦
          rw (n, r, le→leb min_chunk_size (s.dvsize - nb) (omega arith), foot)
            (returns (
              omega arith,
              record {
                size = nb;
                head = ground arith;
                enough = omega arith;
                waste = omega arith;
                all = omega arith;
                rest = refl;
                left = inr (refl, omega arith, ground arith, ground arith);
              },
            ))
    ]
