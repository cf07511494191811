-- ===== src/Dlmalloc/SysTrim.antt =====
-- System deallocation (dlmalloc/dlmalloc.c, release_unused_segments and sys_trim).
use mosalloc_rs.Base.{
  ℕ, zero, suc, ◌+◌, ◌/◌, Bool, ◌&&◌, not, if◌then◌else◌, ◌==◌, leb, ltb, add64, sub64, mul64,
  max_size_t,
}
use mosalloc_rs.Dlmalloc.State.{
  State, Cmd, out_of_fuel, ◌>>=◌, ◌>>◌, pure, get, modify, skip, store, call_morecore, call_munmap,
  call_mremap, seg_size_of, seg_next_of, seg_at,
}
use mosalloc_rs.Dlmalloc.Sizes.{align_as_chunk, top_foot_size, max_request, half_max_size_t}
use mosalloc_rs.Dlmalloc.Chunk.{is_inuse, chunksize}
use mosalloc_rs.Dlmalloc.Treebin.{insert_large_chunk, unlink_large_chunk}
use mosalloc_rs.Dlmalloc.Params.{
  max_release_check_rate, acquire_global_lock, release_global_lock, ensure_initialization,
}
use mosalloc_rs.Dlmalloc.Mmap.{mfail}
use mosalloc_rs.Dlmalloc.Segment.{
  is_mmapped_segment, is_extern_segment, seg_end, segment_holding, has_segment_link, init_top,
}

-- The segment at `sp` is mapped, ours, and one free chunk `p` fills it.
abbrev can_unmap : State → ℕ → ℕ → Bool
can_unmap s sp p =
    (is_mmapped_segment s sp && not (is_extern_segment s sp))
    && (not (is_inuse s p) && leb (sub64 (seg_end s sp) top_foot_size) (add64 p (chunksize s p)))

-- Takes the chunk `p` that fills a segment off its place.
abbrev withdraw : ℕ → Cmd (Unit {0})
withdraw p = do
  s ← get
  if p == s.dv then modify (λ s'. record s' { dv = 0; dvsize = 0 }) else unlink_large_chunk p

-- One round: the segment `sp` behind `pred`. The result is the number of bytes released and the
-- new `pred`.
release_segment : ℕ → ℕ → Cmd (ℕ × ℕ)
release_segment pred sp = do
  s ← get
  let base = s.mem sp
  let size = s.mem (seg_size_of sp)
  let next = s.mem (seg_next_of sp)
  let p = align_as_chunk base
  let psize = chunksize s p
  if can_unmap s sp p
      then (do
        withdraw p
        r ← call_munmap base size
        if r == 0
            then (do
              modify (λ s'. record s' { footprint = sub64 s'.footprint size })
              store (seg_next_of pred) next
              pure (size, pred))
            else (do insert_large_chunk p psize; pure (0, sp)))
      else pure (0, sp)

release_loop : ℕ → ℕ → ℕ → ℕ → ℕ → Cmd (ℕ × ℕ)
unfolding release_segment
release_loop zero pred sp released nsegs = λ _. out_of_fuel
release_loop (suc fuel) pred sp released nsegs = do
  s ← get
  let next = s.mem (seg_next_of sp)
  if sp == 0 then pure (released, nsegs) else (do
    (size, pred') ← release_segment pred sp
    release_loop fuel pred' next (add64 released size) (nsegs + 1))

unfoldable pub release_unused_segments : Cmd ℕ
unfolding release_loop
release_unused_segments = do
  s ← get
  (released, nsegs) ← release_loop s.rounds (seg_at s) (s.mem (seg_next_of (seg_at s))) 0 0
  modify (λ s'. record s' {
    release_checks = if ltb max_release_check_rate nsegs then nsegs else max_release_check_rate;
  })
  pure released

-- What is released of a mapped top segment.
trim_mmapped : ℕ → ℕ → Cmd ℕ
trim_mmapped sp extra = do
  s ← get
  link ← has_segment_link sp
  let base = s.mem sp
  let size = s.mem (seg_size_of sp)
  let newsize = sub64 size extra
  if leb extra size && link == 0
      then (do
        a ← call_mremap base size newsize 0
        if a == mfail
            then (do
              r ← call_munmap (add64 base newsize) extra
              if r == 0 then pure extra else pure 0)
            else pure extra)
      else pure 0

-- What is released of a top segment that came from MORECORE.
trim_morecore : ℕ → ℕ → Cmd ℕ
trim_morecore sp extra = do
  s ← get
  let unit = s.mparams.granularity
  let n = if leb half_max_size_t extra then sub64 (half_max_size_t + 1) unit else extra
  acquire_global_lock
  old_br ← call_morecore 0
  s' ← get
  released ←
      (if old_br == seg_end s' sp
        then (do
          rel_br ← call_morecore (sub64 0 n)
          new_br ← call_morecore 0
          if not (rel_br == mfail) && ltb new_br old_br then pure (sub64 old_br new_br) else pure 0)
        else pure 0)
  release_global_lock
  pure released

-- `if (m->topsize > pad)`: the bytes released from top. `pad` includes TOP_FOOT_SIZE.
trim_top : ℕ → Cmd ℕ
unfolding trim_mmapped trim_morecore
trim_top pad = do
  s ← get
  let unit = s.mparams.granularity
  let extra = mul64 (sub64 (add64 (sub64 s.topsize pad) (sub64 unit 1) / unit) 1) unit
  sp ← segment_holding s.top
  released ←
      (if is_extern_segment s sp
        then pure 0
        else if is_mmapped_segment s sp
        then trim_mmapped sp extra
        else trim_morecore sp extra)
  if released == 0 then skip else (do
    s' ← get
    store (seg_size_of sp) (sub64 (s'.mem (seg_size_of sp)) released)
    modify (λ t. record t { footprint = sub64 t.footprint released })
    init_top s'.top (sub64 s'.topsize released))
  pure released

unfoldable pub sys_trim : ℕ → Cmd ℕ
unfolding trim_top
sys_trim pad = do
  ensure_initialization
  s ← get
  let pad' = pad + top_foot_size
  if ltb pad max_request && not (s.top == 0)
      then (do
        n ← (if ltb pad' s.topsize then trim_top pad' else pure 0)
        n' ← release_unused_segments
        let released = add64 n n'
        modify (λ s'. record s' {
          trim_check =
              if released == 0 && ltb s'.trim_check s'.topsize then max_size_t else s'.trim_check;
        })
        if released == 0 then pure 0 else pure 1)
      else pure 0
