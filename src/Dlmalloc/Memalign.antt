-- ===== src/Dlmalloc/Memalign.antt =====
-- Aligned allocation (dlmalloc/dlmalloc.c, internal_memalign, dlmemalign, dlposix_memalign,
-- dlvalloc, dlpvalloc).
pub mod Power
pub mod Place
use mosalloc_rs.Base.{
  ℕ, zero, suc, ◌+◌, ◌-◌, ◌*◌, ◌/◌, ◌%◌, ◌^◌, bit_and, Bool, true, false, ◌&&◌, ◌||◌, not,
  if◌then◌else◌, ◌==◌, leb, ltb, add64, sub64, shl64, and_not,
}
use mosalloc_rs.Dlmalloc.State.{
  State, Cmd, out_of_fuel, ◌>>=◌, ◌>>◌, pure, get, skip, store, failure_action, enomem,
}
use mosalloc_rs.Dlmalloc.Sizes.{
  chunk2mem, mem2chunk, malloc_alignment, min_chunk_size, max_request, chunk_overhead, request2size,
}
use mosalloc_rs.Dlmalloc.Chunk.{
  is_mmapped, chunksize, prev_foot, set_head, chunk_plus_offset, set_inuse,
}
use mosalloc_rs.Dlmalloc.Params.{preaction, postaction, ensure_initialization}
use mosalloc_rs.Dlmalloc.Dispose.{dispose_chunk}
use mosalloc_rs.Dlmalloc.Malloc.{dlmalloc}

-- `while (a < alignment) a <<= 1;`
unfoldable pub double_until : ℕ → ℕ → ℕ → Cmd ℕ
double_until zero alignment a = λ _. out_of_fuel
double_until (suc fuel) alignment a =
    let rest = double_until fuel alignment (shl64 a 1) in if ltb a alignment then rest else pure a

-- The alignment that is used: at least MIN_CHUNK_SIZE and a power of two. 64 rounds pass every
-- bit of a `size_t`.
unfoldable pub fix_alignment : ℕ → Cmd ℕ
unfolding double_until
fix_alignment alignment = do
  let a = if ltb alignment min_chunk_size then min_chunk_size else alignment
  if bit_and a (sub64 a 1) == 0 then pure a else double_until 64 a (shl64 malloc_alignment 1)

-- The place of the aligned chunk inside the chunk `p` of `mem`.
unfoldable pub aligned_pos : ℕ → ℕ → ℕ → ℕ
aligned_pos alignment mem p =
    let br = mem2chunk (and_not (sub64 (add64 mem alignment) 1) (sub64 alignment 1)) in
    if leb min_chunk_size (sub64 br p) then br else add64 br alignment

-- Gives back the space in front of the aligned spot, or adjusts the offset of a mapped chunk.
give_back_leader : ℕ → ℕ → Cmd ℕ
give_back_leader p newp = do
  s ← get
  let leadsize = sub64 newp p
  let newsize = sub64 (chunksize s p) leadsize
  if is_mmapped s p
      then (do store newp (add64 (prev_foot s p) leadsize); set_head newp newsize)
      else (do set_inuse newp newsize; set_inuse p leadsize; dispose_chunk p leadsize)
  pure newp

-- Gives back spare room at the end.
give_back_rest : ℕ → ℕ → Cmd (Unit {0})
give_back_rest p nb = do
  s ← get
  let size = chunksize s p
  let remainder_size = sub64 size nb
  let remainder = chunk_plus_offset p nb
  if not (is_mmapped s p) && ltb (add64 nb min_chunk_size) size
      then (do
        set_inuse p nb
        set_inuse remainder remainder_size
        dispose_chunk remainder remainder_size)
      else skip

-- internal_memalign after malloc returned `mem`.
memalign_chunk : ℕ → ℕ → ℕ → Cmd ℕ
unfolding give_back_leader give_back_rest
memalign_chunk alignment nb mem = do
  preaction
  let p = mem2chunk mem
  p' ←
      (if bit_and mem (sub64 alignment 1) == 0
        then pure p
        else give_back_leader p (aligned_pos alignment mem p))
  give_back_rest p' nb
  postaction
  pure (chunk2mem p')

unfoldable pub internal_memalign : ℕ → ℕ → Cmd ℕ
unfolding memalign_chunk
internal_memalign alignment bytes = do
  a ← fix_alignment alignment
  if leb (sub64 max_request a) bytes then (do failure_action; pure 0) else (do
    let nb = request2size bytes
    mem ← dlmalloc (sub64 (add64 (add64 nb a) min_chunk_size) chunk_overhead)
    if mem == 0 then pure 0 else memalign_chunk a nb mem)

unfoldable pub dlmemalign : ℕ → ℕ → Cmd ℕ
dlmemalign alignment bytes =
    if leb alignment malloc_alignment then dlmalloc bytes else internal_memalign alignment bytes

abbrev pub einval : ℕ
einval = 22

-- The part of dlposix_memalign behind the allocation.
abbrev posix_result : ℕ → ℕ → Cmd ℕ
posix_result pp mem = if mem == 0 then pure enomem else (do store pp mem; pure 0)

unfoldable pub dlposix_memalign : ℕ → ℕ → ℕ → Cmd ℕ
dlposix_memalign pp alignment bytes =
    let d = alignment / 8 in
    if alignment == malloc_alignment
    then (do posix_result pp (← dlmalloc bytes))
    else if not (alignment % 8 == 0) || (d == 0 || not (bit_and d (sub64 d 1) == 0))
    then pure einval
    else if leb bytes (sub64 max_request alignment)
    then (do
      mem ← internal_memalign (if ltb alignment 32 then 32 else alignment) bytes
      posix_result pp mem)
    else posix_result pp 0

unfoldable pub dlvalloc : ℕ → Cmd ℕ
dlvalloc bytes = do ensure_initialization; s ← get; dlmemalign s.mparams.page_size bytes

unfoldable pub dlpvalloc : ℕ → Cmd ℕ
dlpvalloc bytes = do
  ensure_initialization
  s ← get
  let pagesz = s.mparams.page_size
  dlmemalign pagesz (and_not (sub64 (add64 bytes pagesz) 1) (sub64 pagesz 1))
