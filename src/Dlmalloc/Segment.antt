-- ===== src/Dlmalloc/Segment.antt =====
-- Segments, top and the bins of a new space (dlmalloc/dlmalloc.c, "system alloc setup" and "mspace
-- management").
pub mod Rings
use mosalloc_rs.Base.{
  ℕ, zero, suc, ◌+◌, ◌-◌, ◌*◌, ◌/◌, ◌%◌, ◌^◌, Bool, true, false, ◌&&◌, not, if◌then◌else◌, ◌==◌,
  leb, ltb, add64, sub64,
}
use mosalloc_rs.Dlmalloc.State.{
  State, Cmd, out_of_fuel, ◌>>=◌, ◌>>◌, pure, get, modify, skip, load, store, head_of, fd_of, bk_of,
  seg_size_of, seg_next_of, seg_flags_of, smallbin_at, seg_at,
}
use mosalloc_rs.Dlmalloc.Sizes.{
  align_offset, chunk2mem, align_as_chunk, pad_request, top_foot_size, size_t_size, min_chunk_size,
}
use mosalloc_rs.Dlmalloc.Chunk.{
  fencepost_head, with_pinuse, is_inuse, chunksize, set_head, chunk_plus_offset,
  set_size_and_pinuse_of_free_chunk, set_free_with_pinuse, set_size_and_pinuse_of_inuse_chunk,
}
use mosalloc_rs.Dlmalloc.Index.{nsmallbins}
use mosalloc_rs.Dlmalloc.Treebin.{insert_chunk, unlink_chunk}

-- is_mmapped_segment and is_extern_segment: bits 0 and 3 of sflags.
abbrev pub is_mmapped_segment : State → ℕ → Bool
is_mmapped_segment s sp = s.mem (seg_flags_of sp) % 2 == 1

abbrev pub is_extern_segment : State → ℕ → Bool
is_extern_segment s sp = s.mem (seg_flags_of sp) / 8 % 2 == 1

abbrev pub seg_end : State → ℕ → ℕ
seg_end s sp = add64 (s.mem sp) (s.mem (seg_size_of sp))

abbrev pub segment_holds : State → ℕ → ℕ → Bool
segment_holds s sp a = leb (s.mem sp) a && ltb a (seg_end s sp)

-- The loops of segment_holding and has_segment_link, from the segment record `sp`.
find_segment : ℕ → (ℕ → Bool) → ℕ → Cmd ℕ
find_segment zero test sp = λ _. out_of_fuel
find_segment (suc fuel) test sp = do
  s ← get
  if test sp
      then pure sp
      else if s.mem (seg_next_of sp) == 0
      then pure 0
      else find_segment fuel test (s.mem (seg_next_of sp))

-- The record of the segment that holds `addr`, or null.
unfoldable pub segment_holding : ℕ → Cmd ℕ
unfolding find_segment
segment_holding addr s = find_segment s.rounds (λ sp. segment_holds s sp addr) (seg_at s) s

-- Whether the segment `ss` contains a segment record: the record, or null.
unfoldable pub has_segment_link : ℕ → Cmd ℕ
unfolding find_segment
has_segment_link ss s = find_segment s.rounds (λ sp. segment_holds s ss sp) (seg_at s) s

unfoldable pub init_top : ℕ → ℕ → Cmd (Unit {0})
init_top p psize = do
  let offset = align_offset (chunk2mem p)
  let q = add64 p offset
  let n = sub64 psize offset
  modify (λ s. record s { top = q; topsize = n })
  set_head q (with_pinuse n)
  set_head (chunk_plus_offset q n) top_foot_size
  modify (λ s. record s { trim_check = s.mparams.trim_threshold })

-- The rounds of init_bins from bin `i` on; `n` are left.
init_bins_loop : ℕ → ℕ → Cmd (Unit {0})
init_bins_loop zero i = skip
init_bins_loop (suc n) i = do
  s ← get
  let bin = smallbin_at s i
  store (bk_of bin) bin
  store (fd_of bin) bin
  init_bins_loop n (i + 1)

unfoldable pub init_bins : Cmd (Unit {0})
unfolding init_bins_loop
init_bins = init_bins_loop nsmallbins 0

-- The remainder `q` of prepend_alloc joined with the first chunk of the old base.
prepend_rest : ℕ → ℕ → ℕ → Cmd (Unit {0})
prepend_rest oldfirst q qsize = do
  s ← get
  if oldfirst == s.top
      then (do
        let tsize = add64 s.topsize qsize
        modify (λ s'. record s' { topsize = tsize; top = q })
        set_head q (with_pinuse tsize))
      else if oldfirst == s.dv
      then (do
        let dsize = add64 s.dvsize qsize
        modify (λ s'. record s' { dvsize = dsize; dv = q })
        set_size_and_pinuse_of_free_chunk q dsize)
      else if is_inuse s oldfirst
      then (do set_free_with_pinuse q qsize oldfirst; insert_chunk q qsize)
      else (do
        let nsize = chunksize s oldfirst
        unlink_chunk oldfirst nsize
        set_free_with_pinuse q (add64 qsize nsize) (chunk_plus_offset oldfirst nsize)
        insert_chunk q (add64 qsize nsize))

unfoldable pub prepend_alloc : ℕ → ℕ → ℕ → Cmd ℕ
unfolding prepend_rest
prepend_alloc newbase oldbase nb = do
  let p = align_as_chunk newbase
  let oldfirst = align_as_chunk oldbase
  let psize = sub64 oldfirst p
  let q = chunk_plus_offset p nb
  let qsize = sub64 psize nb
  set_size_and_pinuse_of_inuse_chunk p nb
  prepend_rest oldfirst q qsize
  pure (chunk2mem p)

-- The trailing fenceposts of add_segment, from `p` to `old_end`.
insert_fenceposts : ℕ → ℕ → ℕ → Cmd (Unit {0})
insert_fenceposts zero p old_end = λ _. out_of_fuel
insert_fenceposts (suc fuel) p old_end = do
  let nextp = chunk_plus_offset p size_t_size
  set_head p fencepost_head
  if ltb (head_of nextp) old_end then insert_fenceposts fuel nextp old_end else skip

-- `*ss = m->seg` and the new values of `m->seg`.
push_segment : ℕ → ℕ → ℕ → ℕ → Cmd (Unit {0})
push_segment ss tbase tsize flags = do
  s ← get
  let seg = seg_at s
  store ss (s.mem seg)
  store (seg_size_of ss) (s.mem (seg_size_of seg))
  store (seg_next_of ss) (s.mem (seg_next_of seg))
  store (seg_flags_of ss) (s.mem (seg_flags_of seg))
  store seg tbase
  store (seg_size_of seg) tsize
  store (seg_flags_of seg) flags
  store (seg_next_of seg) ss

unfoldable pub add_segment : ℕ → ℕ → ℕ → Cmd (Unit {0})
unfolding push_segment insert_fenceposts
add_segment tbase tsize flags = do
  s ← get
  let old_top = s.top
  oldsp ← segment_holding old_top
  let old_end = seg_end s oldsp
  let ssize = pad_request 32
  let rawsp = sub64 old_end (ssize + 32 + 15)
  let asp = add64 rawsp (align_offset (chunk2mem rawsp))
  let csp = if ltb asp (add64 old_top min_chunk_size) then old_top else asp
  let tnext = chunk_plus_offset csp ssize
  init_top tbase (sub64 tsize top_foot_size)
  set_size_and_pinuse_of_inuse_chunk csp ssize
  push_segment (chunk2mem csp) tbase tsize flags
  insert_fenceposts s.rounds tnext old_end
  if csp == old_top then skip else (do
    let psize = sub64 csp old_top
    set_free_with_pinuse old_top psize (chunk_plus_offset old_top psize)
    insert_chunk old_top psize)
