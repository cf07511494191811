-- ===== src/Dlmalloc/Realloc.antt =====
-- calloc and realloc (dlmalloc/dlmalloc.c, dlcalloc, try_realloc_chunk, dlrealloc,
-- dlrealloc_in_place).
pub mod Request
pub mod Bytes
pub mod Cleared
pub mod Grow
use mosalloc_rs.Base.{
  ℕ, ◌+◌, ◌-◌, ◌*◌, ◌/◌, ◌%◌, ◌^◌, bit_or, Bool, true, false, ◌&&◌, not, if◌then◌else◌, ◌==◌, leb,
  ltb, add64, sub64, mul64, max_size_t, min,
}
use mosalloc_rs.Dlmalloc.State.{
  State, Mem, Cmd, ◌>>=◌, ◌>>◌, pure, get, modify, skip, error_action, failure_action,
}
use mosalloc_rs.Dlmalloc.Sizes.{chunk2mem, mem2chunk, min_chunk_size, max_request, request2size}
use mosalloc_rs.Dlmalloc.Chunk.{
  with_pinuse, cinuse, is_mmapped, chunksize, overhead_for, set_head, chunk_plus_offset,
  clear_pinuse, set_inuse, set_size_and_pinuse_of_free_chunk, ok_address, ok_next, ok_inuse,
  ok_pinuse,
}
use mosalloc_rs.Dlmalloc.Treebin.{unlink_chunk}
use mosalloc_rs.Dlmalloc.Params.{preaction, postaction}
use mosalloc_rs.Dlmalloc.Mmap.{mmap_resize}
use mosalloc_rs.Dlmalloc.Dispose.{dispose_chunk}
use mosalloc_rs.Dlmalloc.Malloc.{dlmalloc}
use mosalloc_rs.Dlmalloc.Free.{dlfree}

-- memset(a, 0, n): of the last word the low bytes only, if `n` ends inside it.
abbrev pub zeroed : ℕ → ℕ → Mem → Mem
zeroed a n m b =
    if leb a b && (ltb b (a + n) && (b - a) % 8 == 0)
    then if leb (b + 8) (a + n) then 0 else m b - m b % 2 ^ (8 * (a + n - b))
    else m b

abbrev pub memset_zero : ℕ → ℕ → Cmd (Unit {0})
memset_zero a n = modify (λ s. record s { mem = zeroed a n s.mem })

-- memcpy(d, a, n), between regions that do not overlap.
abbrev pub copied : ℕ → ℕ → ℕ → Mem → Mem
copied d a n m b =
    if leb d b && (ltb b (d + n) && (b - d) % 8 == 0)
    then if leb (b + 8) (d + n)
      then m (a + (b - d))
      else m b - m b % 2 ^ (8 * (d + n - b)) + m (a + (b - d)) % 2 ^ (8 * (d + n - b))
    else m b

abbrev pub memcpy : ℕ → ℕ → ℕ → Cmd (Unit {0})
memcpy d a n = modify (λ s. record s { mem = copied d a n s.mem })

-- `req` of calloc. ((n_elements | elem_size) & ~(size_t)0xffff) is not 0 if the number is above
-- 0xffff.
unfoldable pub calloc_request : ℕ → ℕ → ℕ
calloc_request n_elements elem_size =
    let req = mul64 n_elements elem_size in
    if n_elements == 0
    then 0
    else if ltb 65535 (bit_or n_elements elem_size) && not (req / n_elements == elem_size)
    then max_size_t
    else req

-- The Makefile's -DMMAP_CLEARS=O (a letter) leaves `#if MMAP_CLEARS` false, so calloc_must_clear
-- is 1.
unfoldable pub dlcalloc : ℕ → ℕ → Cmd ℕ
dlcalloc n_elements elem_size = do
  let req = calloc_request n_elements elem_size
  mem ← dlmalloc req
  if mem == 0 then skip else memset_zero mem req
  pure mem

-- A chunk in use shrinks to `nb`, and the `rsize` bytes behind it are freed.
abbrev pub split_inuse : ℕ → ℕ → ℕ → Cmd (Unit {0})
split_inuse p nb rsize = do
  let r = chunk_plus_offset p nb
  set_inuse p nb
  set_inuse r rsize
  dispose_chunk r rsize

realloc_shrink : ℕ → ℕ → ℕ → Cmd ℕ
realloc_shrink p nb oldsize = do
  let rsize = sub64 oldsize nb
  if leb min_chunk_size rsize then split_inuse p nb rsize else skip
  pure p

-- Extend into top.
realloc_top : ℕ → ℕ → ℕ → Cmd ℕ
realloc_top p nb oldsize = do
  s ← get
  let newsize = add64 oldsize s.topsize
  let newtopsize = sub64 newsize nb
  let newtop = chunk_plus_offset p nb
  if ltb nb newsize
      then (do
        set_inuse p nb
        set_head newtop (with_pinuse newtopsize)
        modify (λ s'. record s' { top = newtop; topsize = newtopsize })
        pure p)
      else pure 0

-- Extend into dv.
realloc_dv : ℕ → ℕ → ℕ → Cmd ℕ
realloc_dv p nb oldsize = do
  s ← get
  let newsize = add64 oldsize s.dvsize
  let dsize = sub64 newsize nb
  let r = chunk_plus_offset p nb
  if leb nb newsize
      then (do
        if leb min_chunk_size dsize
            then (do
              set_inuse p nb
              set_size_and_pinuse_of_free_chunk r dsize
              clear_pinuse (chunk_plus_offset r dsize)
              modify (λ s'. record s' { dvsize = dsize; dv = r }))
            else (do set_inuse p newsize; modify (λ s'. record s' { dvsize = 0; dv = 0 }))
        pure p)
      else pure 0

-- Extend into the next free chunk.
realloc_next : ℕ → ℕ → ℕ → ℕ → Cmd ℕ
realloc_next p nb oldsize next = do
  s ← get
  let nextsize = chunksize s next
  let newsize = add64 oldsize nextsize
  let rsize = sub64 newsize nb
  if leb nb newsize
      then (do
        unlink_chunk next nextsize
        if ltb rsize min_chunk_size then set_inuse p newsize else split_inuse p nb rsize
        pure p)
      else pure 0

unfoldable pub try_realloc_chunk : ℕ → ℕ → ℕ → Cmd ℕ
unfolding realloc_shrink realloc_top realloc_dv realloc_next
try_realloc_chunk p nb can_move = do
  s ← get
  let oldsize = chunksize s p
  let next = chunk_plus_offset p oldsize
  if ok_address s p && (ok_inuse s p && (ok_next p next && ok_pinuse s next))
      then (if is_mmapped s p
          then mmap_resize p nb can_move
          else if leb nb oldsize
          then realloc_shrink p nb oldsize
          else if next == s.top
          then realloc_top p nb oldsize
          else if next == s.dv
          then realloc_dv p nb oldsize
          else if cinuse s next
          then pure 0
          else realloc_next p nb oldsize next)
      else error_action

-- The branch of dlrealloc that cannot stay in place.
realloc_move : ℕ → ℕ → Cmd ℕ
realloc_move oldmem bytes = do
  mem ← dlmalloc bytes
  s ← get
  let oldp = mem2chunk oldmem
  let oc = sub64 (chunksize s oldp) (overhead_for s oldp)
  if mem == 0
      then skip
      else (do memcpy mem oldmem (if ltb oc bytes then oc else bytes); dlfree oldmem)
  pure mem

unfoldable pub dlrealloc : ℕ → ℕ → Cmd ℕ
unfolding realloc_move
dlrealloc oldmem bytes =
    if oldmem == 0
    then dlmalloc bytes
    else if leb max_request bytes
    then (do failure_action; pure 0)
    else (do
      preaction
      newp ← try_realloc_chunk (mem2chunk oldmem) (request2size bytes) 1
      postaction
      if newp == 0 then realloc_move oldmem bytes else pure (chunk2mem newp))

unfoldable pub dlrealloc_in_place : ℕ → ℕ → Cmd ℕ
dlrealloc_in_place oldmem bytes =
    if oldmem == 0
    then pure 0
    else if leb max_request bytes
    then (do failure_action; pure 0)
    else (do
      let oldp = mem2chunk oldmem
      preaction
      newp ← try_realloc_chunk oldp (request2size bytes) 0
      postaction
      if newp == oldp then pure oldmem else pure 0)
