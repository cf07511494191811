-- ===== src/Dlmalloc/SysAlloc/Obtain/Contiguous.antt =====
-- The first memory of a heap, from contiguous MORECORE.
use mosalloc_rs.Base.{ℕ, ◌+◌, ◌≡◌, ◌≢◌, ◌<◌, refl, sym, ap, true, false, ne→==, eq→==, lt→ltb}
use mosalloc_rs.Dlmalloc.State.{State, Mem}
use mosalloc_rs.Dlmalloc.State.Returns.{Returns, returns}
use mosalloc_rs.Dlmalloc.Sizes.{half_max_size_t}
use mosalloc_rs.Dlmalloc.Params.{use_noncontiguous, is_page_aligned}
use mosalloc_rs.Dlmalloc.Mmap.{mfail}
use mosalloc_rs.Dlmalloc.SysAlloc.Obtain.{try_contiguous}

-- The break stands at `base`, on a page, and moves up by `size` bytes when asked. `m` is the memory
-- afterwards.
pub record Breaks (s : State) (base size : ℕ) (m : Mem) : Type 0 where
  pub between : Mem
  pub first : s.os.sbrk s.calls 0 s.mem ≡ (base, between)
  pub second : s.os.sbrk (s.calls + 1) size between ≡ (base, m)
  pub page : is_page_aligned s base ≡ true
  pub works : base ≢ mfail

-- With no heap yet and no limit, the memory asked for is taken where the break stood.
pub try_contiguous-first :
    (s : State) (nb size base : ℕ) (m : Mem)
    → Breaks s base size m
    → s.top ≡ 0
    → use_noncontiguous s ≡ false
    → s.global_mutex ≡ 0
    → s.footprint_limit ≡ 0
    → nb < size
    → size < half_max_size_t
    → Returns
        (λ g s'.
          (g ≡ record { tbase = base; tsize = size; br = base; ssize = size })
          × (s' ≡ record s { mem = m; calls = s.calls + 1 + 1 }))
        (try_contiguous nb size s)
unfolding try_contiguous
try_contiguous-first s nb size base m brk notop contiguous free nolimit more small =
    rw
      (
        contiguous,
        eq→== s.top 0 notop,
        eq→== s.global_mutex 0 free,
        brk.first,
        brk.page,
        ne→== base mfail brk.works,
        lt→ltb nb size more,
        lt→ltb size half_max_size_t small,
        eq→== s.footprint_limit 0 nolimit,
        brk.second,
        eq→== base base refl,
      )
      (rw (ne→== base mfail brk.works) (
        returns (
          refl,
          ap {A = ℕ} (λ k. record s { mem = m; calls = s.calls + 1 + 1; global_mutex = k })
              (sym free),
        )))
