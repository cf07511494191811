-- ===== src/Dlmalloc/Malloc.antt =====
-- malloc (dlmalloc/dlmalloc.c, tmalloc_large, tmalloc_small, dlmalloc).
pub mod Top
pub mod Exact
pub mod Victim
pub mod Sequence
pub mod First
pub mod NewHeap
pub mod Smallest
use mosalloc_rs.Base.{
  ℕ, zero, suc, ◌+◌, ◌-◌, ◌*◌, ◌/◌, ◌%◌, ◌^◌, bit_and, Bool, true, false, ◌&&◌, not, if◌then◌else◌,
  ◌==◌, leb, ltb, add64, sub64, shl64, shl32, shr, max_size_t,
}
use mosalloc_rs.Dlmalloc.State.{
  State, Cmd, out_of_fuel, ◌>>=◌, ◌>>◌, pure, get, modify, skip, error_action, fd_of, child_of,
  smallbin_at, treebin_at,
}
use mosalloc_rs.Dlmalloc.Sizes.{
  chunk2mem, min_chunk_size, max_request, min_request, max_small_request, pad_request,
}
use mosalloc_rs.Dlmalloc.Chunk.{
  chunksize, chunk_plus_offset, set_size_and_pinuse_of_free_chunk, set_inuse_and_pinuse,
  set_size_and_pinuse_of_inuse_chunk, ok_address, ok_next,
}
use mosalloc_rs.Dlmalloc.Index.{
  small_index, small_index2size, compute_tree_index, leftshift_for_tree_index, least_bit, left_bits,
  compute_bit2idx,
}
use mosalloc_rs.Dlmalloc.Smallbin.{unlink_first_small_chunk, replace_dv}
use mosalloc_rs.Dlmalloc.Treebin.{leftmost_child, unlink_large_chunk, insert_chunk}
use mosalloc_rs.Dlmalloc.Params.{preaction, postaction, ensure_initialization}
use mosalloc_rs.Dlmalloc.SysAlloc.{split_top, sys_alloc}

-- The best fit so far, `v`, and what it leaves over, `rsize`, with the node `t` looked at.
abbrev pub better : State → ℕ → ℕ → ℕ × ℕ → ℕ × ℕ
better s nb t (v, rsize) =
    let trem = sub64 (chunksize s t) nb in if ltb trem rsize then (t, trem) else (v, rsize)

-- The `for (;;)` of tmalloc_large. The result is t, v and rsize where it ends.
large_loop : ℕ → ℕ → ℕ → ℕ → ℕ → ℕ × ℕ → Cmd (ℕ × ℕ × ℕ)
large_loop zero nb t sizebits rst best = λ _. out_of_fuel
large_loop (suc fuel) nb t sizebits rst best = do
  s ← get
  let best' = better s nb t best
  let rt = s.mem (child_of t 1)
  let t' = s.mem (child_of t (shr sizebits 63 % 2))
  let rst' = if not (rt == 0) && not (rt == t') then rt else rst
  if ltb (sub64 (chunksize s t) nb) best.1 && best'.1 == 0
      then pure (t, best'.0, best'.1)
      else if t' == 0
      then pure (rst', best'.0, best'.1)
      else large_loop fuel nb t' (shl64 sizebits 1) rst' best'

-- `while (t != 0)`: the smallest of the tree or subtree at `t`.
pub smallest_loop : ℕ → ℕ → ℕ → ℕ × ℕ → Cmd (ℕ × ℕ)
smallest_loop zero nb t best = λ _. out_of_fuel
smallest_loop (suc fuel) nb t best = do
  s ← get
  if t == 0 then pure best else smallest_loop fuel nb (leftmost_child s t) (better s nb t best)

-- The root of the next treebin that is not empty, above bin `i`, or null.
next_root : State → ℕ → ℕ
next_root s i =
    let leftbits = bit_and (left_bits (2 ^ i % 2 ^ 32)) s.treemap in
    if leftbits == 0 then 0 else s.mem (treebin_at s (compute_bit2idx (least_bit leftbits)))

-- Takes `nb` bytes of the tree chunk `v`, which leaves `rsize`: the rest goes to `keep`.
abbrev pub use_large : ℕ → ℕ → ℕ → (ℕ → Cmd (Unit {0})) → Cmd ℕ
use_large nb v rsize keep = do
  s ← get
  let r = chunk_plus_offset v nb
  if ok_address s v && ok_next v r
      then (do
        unlink_large_chunk v
        if ltb rsize min_chunk_size then set_inuse_and_pinuse v (add64 rsize nb) else (do
          set_size_and_pinuse_of_inuse_chunk v nb
          set_size_and_pinuse_of_free_chunk r rsize
          keep r)
        pure (chunk2mem v))
      else error_action

unfoldable pub tmalloc_large : ℕ → Cmd ℕ
unfolding large_loop smallest_loop next_root
tmalloc_large nb = do
  s ← get
  let idx = compute_tree_index nb
  let t = s.mem (treebin_at s idx)
  (t', v, rsize) ←
      (if t == 0
        then pure (0, 0, sub64 0 nb)
        else large_loop s.rounds nb t (shl64 nb (leftshift_for_tree_index idx)) 0 (0, sub64 0 nb))
  (v', rsize') ←
      smallest_loop s.rounds nb (if t' == 0 && v == 0 then next_root s idx else t') (v, rsize)
  if not (v' == 0) && ltb rsize' (sub64 s.dvsize nb)
      then use_large nb v' rsize' (λ r. insert_chunk r rsize')
      else pure 0

unfoldable pub tmalloc_small : ℕ → Cmd ℕ
unfolding smallest_loop
tmalloc_small nb = do
  s ← get
  let t = s.mem (treebin_at s (compute_bit2idx (least_bit s.treemap)))
  (v, rsize) ← smallest_loop s.rounds nb (leftmost_child s t) (t, sub64 (chunksize s t) nb)
  use_large nb v rsize (λ r. replace_dv r rsize)

-- A remainderless fit to a smallbin: bin `idx`, or the next one if `idx` is empty.
unfoldable pub use_smallbin : ℕ → ℕ → Cmd ℕ
unfolding unlink_first_small_chunk
use_smallbin idx smallbits = do
  s ← get
  let i = idx + (1 - smallbits % 2)
  let b = smallbin_at s i
  let p = s.mem (fd_of b)
  unlink_first_small_chunk b p i
  set_inuse_and_pinuse p (small_index2size i)
  pure (chunk2mem p)

-- A chunk of the next nonempty smallbin; the rest becomes dv.
unfoldable pub split_smallbin : ℕ → ℕ → ℕ → Cmd ℕ
unfolding unlink_first_small_chunk
split_smallbin nb idx smallbits = do
  s ← get
  let leftbits = bit_and (shl32 smallbits idx) (left_bits (2 ^ idx % 2 ^ 32))
  let i = compute_bit2idx (least_bit leftbits)
  let b = smallbin_at s i
  let p = s.mem (fd_of b)
  let rsize = sub64 (small_index2size i) nb
  let r = chunk_plus_offset p nb
  unlink_first_small_chunk b p i
  if ltb rsize min_chunk_size then set_inuse_and_pinuse p (small_index2size i) else (do
    set_size_and_pinuse_of_inuse_chunk p nb
    set_size_and_pinuse_of_free_chunk r rsize
    replace_dv r rsize)
  pure (chunk2mem p)

-- Allocation from dv, which is at least `nb`.
unfoldable pub use_dv : ℕ → Cmd ℕ
use_dv nb = do
  s ← get
  let rsize = sub64 s.dvsize nb
  let p = s.dv
  let r = chunk_plus_offset p nb
  if leb min_chunk_size rsize
      then (do
        modify (λ s'. record s' { dv = r; dvsize = rsize })
        set_size_and_pinuse_of_free_chunk r rsize
        set_size_and_pinuse_of_inuse_chunk p nb)
      else (do modify (λ s'. record s' { dvsize = 0; dv = 0 }); set_inuse_and_pinuse p s.dvsize)
  pure (chunk2mem p)

-- The steps behind the bins: dv, top, the system.
unfoldable pub malloc_rest : ℕ → Cmd ℕ
malloc_rest nb = do
  s ← get
  if leb nb s.dvsize then use_dv nb else if ltb nb s.topsize then split_top nb else sys_alloc nb

-- `&& (mem = tmalloc(gm, nb)) != 0`, else the steps behind the bins.
abbrev or_rest : ℕ → Cmd ℕ → Cmd ℕ
or_rest nb tmalloc = do
  s ← get
  if s.treemap == 0
      then malloc_rest nb
      else (do mem ← tmalloc; if mem == 0 then malloc_rest nb else pure mem)

-- What stands between PREACTION and POSTACTION.
unfoldable pub malloc_locked : ℕ → Cmd ℕ
malloc_locked bytes = do
  s ← get
  let nb = if ltb bytes min_request then min_chunk_size else pad_request bytes
  let idx = small_index nb
  let smallbits = shr s.smallmap idx
  if leb bytes max_small_request
      then (if smallbits % 4 == 0
          then (if leb nb s.dvsize
              then malloc_rest nb
              else if smallbits == 0
              then or_rest nb (tmalloc_small nb)
              else split_smallbin nb idx smallbits)
          else use_smallbin idx smallbits)
      else if leb max_request bytes
      then malloc_rest max_size_t
      else or_rest (pad_request bytes) (tmalloc_large (pad_request bytes))

unfoldable pub dlmalloc : ℕ → Cmd ℕ
dlmalloc bytes = do
  ensure_initialization
  preaction
  mem ← malloc_locked bytes
  postaction
  pure mem
