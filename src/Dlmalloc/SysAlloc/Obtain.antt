-- ===== src/Dlmalloc/SysAlloc/Obtain.antt =====
-- How sys_alloc gets memory from the system (dlmalloc/dlmalloc.c, sys_alloc): contiguous MORECORE,
-- MMAP, noncontiguous MORECORE.
pub mod Contiguous
use mosalloc_rs.Base.{ℕ, ◌&&◌, ◌||◌, not, if◌then◌else◌, ◌==◌, leb, ltb, add64, sub64}
use mosalloc_rs.Dlmalloc.State.{Cmd, ◌>>=◌, ◌>>◌, pure, get, skip, call_morecore, call_mmap}
use mosalloc_rs.Dlmalloc.Sizes.{top_foot_size, sys_alloc_padding, half_max_size_t}
use mosalloc_rs.Dlmalloc.Params.{
  use_mmap_bit, use_noncontiguous, disable_contiguous, page_align, granularity_align,
  is_page_aligned, acquire_global_lock, release_global_lock,
}
use mosalloc_rs.Dlmalloc.Mmap.{mfail}
use mosalloc_rs.Dlmalloc.Segment.{seg_end, segment_holding}

-- The local variables tbase, tsize, br and ssize.
pub record Gain : Type 0 where
  pub tbase : ℕ
  pub tsize : ℕ
  pub br : ℕ
  pub ssize : ℕ

abbrev pub no_gain : ℕ → Gain
no_gain n = record { tbase = mfail; tsize = 0; br = mfail; ssize = n }

-- After CALL_MORECORE(ssize) returned `got`: the memory is taken if it stands at `wanted`.
abbrev pub gain_at : ℕ → ℕ → ℕ → Gain
gain_at wanted got n =
    if got == wanted
    then record { tbase = got; tsize = n; br = got; ssize = n }
    else record { tbase = mfail; tsize = 0; br = got; ssize = n }

-- `if (ss == 0)`: the first time through or recovery.
morecore_first : ℕ → ℕ → Cmd Gain
morecore_first nb asize = do
  base ← call_morecore 0
  s ← get
  let n = if is_page_aligned s base then asize else add64 asize (sub64 (page_align s base) base)
  let fp = add64 s.footprint n
  if base == mfail
      then pure (no_gain asize)
      else if ltb nb n
          && (ltb n half_max_size_t
              && (s.footprint_limit == 0 || (ltb s.footprint fp && leb fp s.footprint_limit)))
      then (do got ← call_morecore n; pure (gain_at base got n))
      else pure (no_gain n)

-- The other branch: MORECORE extends the segment `ss` that holds top.
morecore_extend : ℕ → ℕ → Cmd Gain
morecore_extend ss nb = do
  s ← get
  let n = granularity_align s (add64 (sub64 nb s.topsize) sys_alloc_padding)
  if ltb n half_max_size_t
      then (do got ← call_morecore n; s' ← get; pure (gain_at (seg_end s' ss) got n))
      else pure (no_gain n)

-- `br != CMFAIL` where the memory is not contiguous: extend it if it is too small.
morecore_complete : ℕ → Gain → Cmd Gain
morecore_complete nb g = do
  s ← get
  let need = add64 nb sys_alloc_padding
  let esize = granularity_align s (sub64 need g.ssize)
  if g.br == mfail
      then pure g
      else if ltb g.ssize half_max_size_t && (ltb g.ssize need && ltb esize half_max_size_t)
      then (do
        end ← call_morecore esize
        if end == mfail
            then (do call_morecore (sub64 0 g.ssize) >>= λ _. skip; pure (record g { br = mfail }))
            else pure (record g { ssize = add64 g.ssize esize }))
      else pure g

-- `if (tbase == CMFAIL)`: cope with partial failure.
morecore_cope : ℕ → Gain → Cmd Gain
unfolding morecore_complete
morecore_cope nb g =
    if g.tbase == mfail
    then (do
      g' ← morecore_complete nb g
      if g'.br == mfail
          then (do disable_contiguous; pure g')
          else pure (record g' { tbase = g'.br; tsize = g'.ssize }))
    else pure g

-- `if (MORECORE_CONTIGUOUS && !use_noncontiguous(m))`
unfoldable pub try_contiguous : ℕ → ℕ → Cmd Gain
unfolding morecore_first morecore_extend morecore_cope
try_contiguous nb asize = do
  s ← get
  if use_noncontiguous s then pure (no_gain asize) else (do
    ss ← (if s.top == 0 then pure 0 else segment_holding s.top)
    acquire_global_lock
    g ← (if ss == 0 then morecore_first nb asize else morecore_extend ss nb)
    g' ← morecore_cope nb g
    release_global_lock
    pure g')

-- tbase, tsize and mmap_flag after MMAP was tried.
unfoldable pub try_mmap : ℕ → Gain → Cmd (ℕ × ℕ × ℕ)
try_mmap asize g =
    if g.tbase == mfail
    then (do
      mp ← call_mmap asize
      if mp == mfail then pure (mfail, g.tsize, 0) else pure (mp, asize, use_mmap_bit))
    else pure (g.tbase, g.tsize, 0)

-- The noncontiguous MORECORE.
unfoldable pub try_noncontiguous : ℕ → ℕ → ℕ × ℕ × ℕ → Cmd (ℕ × ℕ × ℕ)
try_noncontiguous nb asize (tbase, tsize, flag) =
    if tbase == mfail && ltb asize half_max_size_t
    then (do
      acquire_global_lock
      br ← call_morecore asize
      end ← call_morecore 0
      release_global_lock
      let n = sub64 end br
      if not (br == mfail) && (not (end == mfail) && (ltb br end && ltb (add64 nb top_foot_size) n))
          then pure (br, n, flag)
          else pure (tbase, tsize, flag))
    else pure (tbase, tsize, flag)
