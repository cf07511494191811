-- ===== src/Dlmalloc/SysAlloc/NewHeap.antt =====
-- sys_alloc on a heap without memory, where contiguous MORECORE answers.
use mathlib.Core.Bool.{and-false}
use mosalloc_rs.Base.{
  ℕ, ◌+◌, ◌%◌, ◌^◌, ◌≤◌, ◌<◌, ◌≡◌, ◌≢◌, refl, sym, ap, ◌∙◌, arith, if◌then◌else◌, ltb, leb, false,
  Option, add64, ne→==, eq→==, lt→ltb, lt→leb, none,
}
use mosalloc_rs.Dlmalloc.State.{State, Mem, pure, ◌>>◌}
use mosalloc_rs.Dlmalloc.State.Returns.{Returns, returns, bind, mono}
use mosalloc_rs.Dlmalloc.Params.{use_mmap, use_noncontiguous, granularity_align, align_to}
use mosalloc_rs.Dlmalloc.Params.Align.{aligned_size}
use mosalloc_rs.Dlmalloc.Malloc.Top.{CutsTop, split_top-CutsTop}
use mosalloc_rs.Dlmalloc.SysAlloc.Obtain.{try_mmap, try_noncontiguous}
use mosalloc_rs.Dlmalloc.SysAlloc.Obtain.Contiguous.{Breaks, try_contiguous-first}
use mosalloc_rs.Dlmalloc.Mmap.{mfail}
use mosalloc_rs.Dlmalloc.Sizes.{half_max_size_t, sys_alloc_padding}
use mosalloc_rs.Dlmalloc.SysAlloc.{
  first_segment, finish_alloc, use_memory, sys_alloc_rest, sys_alloc,
}
use mosalloc_rs.Dlmalloc.SysAlloc.First.{IsFirst, OffState, first_segment-IsFirst, IsFirst-IsTop}

-- The state with the footprint of a first segment of `size` bytes.
abbrev pub counted : State → ℕ → State
counted s size = record s {
  footprint = add64 s.footprint size;
  max_footprint =
      if ltb s.max_footprint (add64 s.footprint size)
      then add64 s.footprint size
      else s.max_footprint;
}

use_memory-IsFirst :
    (s : State) (nb base size : ℕ)
    → base % 16 ≡ 0
    → size % 16 ≡ 0
    → nb % 16 ≡ 0
    → 0 < nb
    → nb + 80 < size
    → base + size + 16 < 2 ^ 64
    → OffState s base size
    → s.top ≡ 0
    → Returns
        (λ mem s'.
          (mem ≡ base + 16)
          × ((t : State) × IsFirst (counted s size) base size t × CutsTop t nb s'))
        (use_memory nb (base, size, 0) s)
unfolding use_memory finish_alloc
use_memory-IsFirst s nb base size al sal nal pos big room off notop =
    rw (ne→== base mfail (omega arith), eq→== s.top 0 notop)
      (bind new (λ o t f.
        let top = IsFirst-IsTop (counted s size) base size t al sal (omega arith) room f.1 in
        let fit : nb < t.topsize = omega (arith, f.1.topsize) in
        rw (f.0, lt→ltb nb t.topsize fit)
          (mono (split_top-CutsTop t nb top nal pos fit)
            (λ mem s' q. (q.0 ∙ ap (λ a. a + 16) f.1.top, (t, f.1, q.1))))))
  where
    new :
        Returns
          (λ o t. (o ≡ none) × IsFirst (counted s size) base size t)
          ((first_segment base size 0 >> pure {A = Option ℕ} none) (counted s size))
    new =
        bind (first_segment-IsFirst (counted s size) base size al sal (omega arith) room off)
          (λ _ t f. returns (refl, f))

-- The system gives `size` bytes at `base` from contiguous MORECORE for a heap that has none yet,
-- which is otherwise ready: `m` is the memory afterwards.
pub record IsNew (s : State) (base size : ℕ) (m : Mem) : Type 0 where
  pub initialised : s.mparams.magic ≢ 0
  pub no_top : s.top ≡ 0
  pub no_topsize : s.topsize ≡ 0
  pub contiguous : use_noncontiguous s ≡ false
  pub unlocked : s.global_mutex ≡ 0
  pub no_limit : s.footprint_limit ≡ 0
  pub breaks : Breaks s base size m
  pub aligned : base % 16 ≡ 0
  pub room : base + size + 16 < 2 ^ 64
  pub apart : OffState s base size

-- After the two system calls.
abbrev pub morecored : State → Mem → State
morecored s m = record s { mem = m; calls = s.calls + 1 + 1 }

module _ (s : State) (nb base : ℕ) (m : Mem) where
  sys_alloc_rest-IsFirst :
      (size : ℕ)
      → granularity_align s (add64 nb sys_alloc_padding) ≡ size
      → size % 16 ≡ 0
      → nb + 96 ≤ size
      → size < half_max_size_t
      → nb % 16 ≡ 0
      → 0 < nb
      → IsNew s base size m
      → Returns
          (λ mem s'.
            (mem ≡ base + 16)
            × ((t : State) × IsFirst (counted (morecored s m) size) base size t × CutsTop t nb s'))
          (sys_alloc_rest nb s)
  unfolding sys_alloc_rest try_mmap try_noncontiguous
  sys_alloc_rest-IsFirst size asize sal more small nal pos new =
      rw (asize, lt→leb size nb (omega arith), eq→== s.footprint_limit 0 new.no_limit)
        (bind
          (try_contiguous-first s nb size base m new.breaks new.no_top new.contiguous new.unlocked
            new.no_limit (omega arith) small)
          (λ g s1 q.
            rw (q.0, q.1, ne→== base mfail new.breaks.works)
              (rw (ne→== base mfail new.breaks.works) (
                use_memory-IsFirst (morecored s m) nb base size new.aligned sal nal pos
                  (omega arith) new.room new.apart new.no_top))))

  -- On an initialised state without top, without a footprint limit and not set to noncontiguous,
  -- whose granularity is a power of two from 16 on, and where MORECORE moves the break from an
  -- aligned page by the bytes asked for (apart from the state, inside the address space): for every
  -- aligned request that stays below half of the address space with padding and granularity,
  -- sys_alloc returns the memory of the chunk at the old break. On the way stands a state with one
  -- segment of the request and its padding rounded up to the granularity, that much more footprint,
  -- all of it top but for its foot, and empty smallbins; from this state the chunk is cut off the
  -- lower end of top.
  pub sys_alloc-IsFirst :
      (k size : ℕ)
      → 4 ≤ k
      → size ≡ granularity_align s (nb + 96)
      → s.mparams.granularity ≡ 2 ^ k
      → nb + 96 + 2 ^ k < half_max_size_t
      → nb % 16 ≡ 0
      → 0 < nb
      → IsNew s base size m
      → Returns
          (λ mem s'.
            (mem ≡ base + 16)
            × ((t : State) × IsFirst (counted (morecored s m) size) base size t × CutsTop t nb s'))
          (sys_alloc nb s)
  unfolding sys_alloc
  sys_alloc-IsFirst k size low asize unit small nal pos new =
      let sum : add64 nb sys_alloc_padding ≡ nb + 96 = omega arith in
      let e : granularity_align s (add64 nb sys_alloc_padding) ≡ size = rw (sum) (sym asize) in
      let fit =
        aligned_size k (nb + 96) size low (asize ∙ ap (λ u. align_to u (nb + 96)) unit) small in
      rw
        (
          ne→== s.mparams.magic 0 new.initialised,
          eq→== s.topsize 0 new.no_topsize,
          and-false (leb s.mparams.mmap_threshold nb),
          and-false (use_mmap s),
        )
        (sys_alloc_rest-IsFirst size e fit.0 fit.1 fit.2 nal pos new)
