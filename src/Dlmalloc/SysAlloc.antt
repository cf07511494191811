-- ===== src/Dlmalloc/SysAlloc.antt =====
-- System allocation (dlmalloc/dlmalloc.c, sys_alloc), in the order of the C code: a direct
-- mapping, contiguous MORECORE, MMAP, noncontiguous MORECORE, and what is done with the memory.
pub mod First
pub mod NewHeap
pub mod Obtain
use mosalloc_rs.Base.{
  ℕ, zero, suc, ◌%◌, Bool, ◌&&◌, ◌||◌, not, if◌then◌else◌, ◌==◌, leb, ltb, add64, sub64, Option,
  none, some,
}
use mosalloc_rs.Dlmalloc.State.{
  State, Cmd, out_of_fuel, ◌>>=◌, ◌>>◌, pure, get, modify, skip, store, failure_action,
  call_morecore, call_mmap, seg_size_of, seg_next_of, seg_flags_of, seg_at,
}
use mosalloc_rs.Dlmalloc.Sizes.{chunk2mem, top_foot_size, sys_alloc_padding, half_max_size_t}
use mosalloc_rs.Dlmalloc.Chunk.{
  with_pinuse, set_head, chunk_plus_offset, set_size_and_pinuse_of_inuse_chunk,
}
use mosalloc_rs.Dlmalloc.Params.{
  use_mmap_bit, use_mmap, use_noncontiguous, disable_contiguous, page_align, granularity_align,
  is_page_aligned, max_release_check_rate, acquire_global_lock, release_global_lock,
  ensure_initialization,
}
use mosalloc_rs.Dlmalloc.Mmap.{mfail, over_limit, add_footprint, mmap_alloc}
use mosalloc_rs.Dlmalloc.Segment.{
  is_extern_segment, seg_end, segment_holds, segment_holding, init_top, init_bins, prepend_alloc,
  add_segment,
}
use mosalloc_rs.Dlmalloc.SysAlloc.Obtain.{Gain, try_contiguous, try_mmap, try_noncontiguous}

-- `if (!is_initialized(m))`, for the global state.
pub first_segment : ℕ → ℕ → ℕ → Cmd (Unit {0})
first_segment tbase tsize flag = do
  s ← get
  let seg = seg_at s
  store seg tbase
  store (seg_size_of seg) tsize
  store (seg_flags_of seg) flag
  modify (λ s'. record s' {
    least_addr = if s'.least_addr == 0 || ltb tbase s'.least_addr then tbase else s'.least_addr;
    magic = s'.mparams.magic;
    release_checks = max_release_check_rate;
  })
  init_bins
  init_top tbase (sub64 tsize top_foot_size)

-- The traversal of the segments for the one that passes a test: its record, or null.
search_segment : ℕ → (ℕ → Bool) → ℕ → Cmd ℕ
search_segment zero test sp = λ _. out_of_fuel
search_segment (suc fuel) test sp = do
  s ← get
  if sp == 0
      then pure 0
      else if test sp
      then pure sp
      else search_segment fuel test (s.mem (seg_next_of sp))

-- The segment at `sp`, if there is one, may be merged with memory of the kind `flag`.
abbrev may_merge : State → ℕ → ℕ → Bool
may_merge s sp flag =
    not (sp == 0) && (not (is_extern_segment s sp) && s.mem (seg_flags_of sp) % 2 == flag)

-- Memory that cannot be appended: prepended to a segment (prepend_alloc's result then is the one
-- of sys_alloc) or made a segment of its own.
prepend_or_add : ℕ → ℕ → ℕ → ℕ → Cmd (Option ℕ)
unfolding search_segment
prepend_or_add tbase tsize flag nb = do
  modify (λ s. record s { least_addr = if ltb tbase s.least_addr then tbase else s.least_addr })
  s ← get
  sp ← search_segment s.rounds (λ q. s.mem q == add64 tbase tsize) (seg_at s)
  if may_merge s sp flag
      then (do
        let oldbase = s.mem sp
        store sp tbase
        store (seg_size_of sp) (add64 (s.mem (seg_size_of sp)) tsize)
        mem ← prepend_alloc tbase oldbase nb
        pure (some mem))
      else (do add_segment tbase tsize flag; pure none)

-- The memory joins the segments. The result is that of prepend_alloc, where it was called.
merge_segment : ℕ → ℕ → ℕ → ℕ → Cmd (Option ℕ)
unfolding search_segment prepend_or_add
merge_segment tbase tsize flag nb = do
  s ← get
  sp ← search_segment s.rounds (λ q. tbase == seg_end s q) (seg_at s)
  if may_merge s sp flag && segment_holds s sp s.top
      then (do
        store (seg_size_of sp) (add64 (s.mem (seg_size_of sp)) tsize)
        init_top s.top (add64 s.topsize tsize)
        pure none)
      else prepend_or_add tbase tsize flag nb

-- Allocation from the top chunk, which is larger than `nb`: its last step in sys_alloc and in
-- malloc.
abbrev pub split_top : ℕ → Cmd ℕ
split_top nb = do
  s ← get
  let rsize = sub64 s.topsize nb
  let p = s.top
  let r = chunk_plus_offset p nb
  modify (λ s'. record s' { topsize = rsize; top = r })
  set_head r (with_pinuse rsize)
  set_size_and_pinuse_of_inuse_chunk p nb
  pure (chunk2mem p)

-- The end of sys_alloc: prepend_alloc's result, else a chunk of the new or extended top.
finish_alloc : ℕ → Option ℕ → Cmd ℕ
finish_alloc nb (some mem) = pure mem
finish_alloc nb none = do
  s ← get
  if ltb nb s.topsize then split_top nb else (do failure_action; pure 0)

-- `if (tbase != CMFAIL)` and the failure action behind it.
use_memory : ℕ → ℕ × ℕ × ℕ → Cmd ℕ
unfolding first_segment merge_segment finish_alloc
use_memory nb (tbase, tsize, flag) = if tbase == mfail then (do failure_action; pure 0) else (do
  add_footprint tsize
  s ← get
  mem ←
      (if s.top == 0
        then (do first_segment tbase tsize flag; pure none)
        else merge_segment tbase tsize flag nb)
  finish_alloc nb mem)

-- sys_alloc behind the direct mapping.
sys_alloc_rest : ℕ → Cmd ℕ
unfolding try_contiguous try_mmap try_noncontiguous use_memory
sys_alloc_rest nb = do
  s ← get
  let asize = granularity_align s (add64 nb sys_alloc_padding)
  if leb asize nb || over_limit s asize then pure 0 else (do
    g ← try_contiguous nb asize
    t ← try_mmap asize g
    t' ← try_noncontiguous nb asize t
    use_memory nb t')

unfoldable pub sys_alloc : ℕ → Cmd ℕ
unfolding sys_alloc_rest mmap_alloc
sys_alloc nb = do
  ensure_initialization
  s ← get
  mem ←
      (if use_mmap s && (leb s.mparams.mmap_threshold nb && not (s.topsize == 0))
        then mmap_alloc nb
        else pure 0)
  if mem == 0 then sys_alloc_rest nb else pure mem
