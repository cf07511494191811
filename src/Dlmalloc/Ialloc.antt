-- ===== src/Dlmalloc/Ialloc.antt =====
-- Allocation of several elements at once (dlmalloc/dlmalloc.c, ialloc, dlindependent_calloc,
-- dlindependent_comalloc).
use mosalloc_rs.Base.{
  ℕ, zero, suc, ◌+◌, ◌-◌, ◌*◌, Bool, true, false, if◌then◌else◌, ◌==◌, add64, sub64, mul64,
}
use mosalloc_rs.Dlmalloc.State.{State, Cmd, ◌>>=◌, ◌>>◌, pure, get, skip, store}
use mosalloc_rs.Dlmalloc.Sizes.{chunk2mem, mem2chunk, chunk_overhead, size_t_size, request2size}
use mosalloc_rs.Dlmalloc.Chunk.{chunksize, chunk_plus_offset, set_size_and_pinuse_of_inuse_chunk}
use mosalloc_rs.Dlmalloc.Params.{
  use_mmap, enable_mmap, disable_mmap, preaction, postaction, ensure_initialization,
}
use mosalloc_rs.Dlmalloc.Malloc.{dlmalloc}
use mosalloc_rs.Dlmalloc.Realloc.{memset_zero}

-- `for (i = 0; i != n_elements; ++i) contents_size += request2size(sizes[i]);` from index `i`
-- with `n` elements left. `sizes` reads the array.
add_sizes : (ℕ → ℕ) → ℕ → ℕ → ℕ → ℕ
add_sizes sizes zero i acc = acc
add_sizes sizes (suc n) i acc = add_sizes sizes n (i + 1) (add64 acc (request2size (sizes i)))

-- The splitting loop, with `n` elements behind the one at `p`.
split_elements : (State → ℕ → ℕ) → ℕ → ℕ → ℕ → ℕ → ℕ → ℕ → Cmd (Unit {0})
split_elements sizes element_size marray zero i p remainder_size = do
  store (marray + 8 * i) (chunk2mem p)
  set_size_and_pinuse_of_inuse_chunk p remainder_size
split_elements sizes element_size marray (suc n) i p remainder_size = do
  store (marray + 8 * i) (chunk2mem p)
  s ← get
  let size = if element_size == 0 then request2size (sizes s i) else element_size
  set_size_and_pinuse_of_inuse_chunk p size
  split_elements sizes element_size marray n (i + 1) (chunk_plus_offset p size)
      (sub64 remainder_size size)

-- ialloc after malloc returned `mem`: the elements are cleared if `clear`, the pointer array is
-- made if `chunks` is null, and the chunk is split.
ialloc_chunk : ℕ → (State → ℕ → ℕ) → ℕ → ℕ → ℕ → Bool → ℕ → ℕ → Cmd ℕ
unfolding split_elements
ialloc_chunk n_elements sizes element_size contents_size array_size clear chunks mem = do
  preaction
  s ← get
  let p = mem2chunk mem
  let size = chunksize s p
  let array_chunk = chunk_plus_offset p contents_size
  if clear then memset_zero mem (sub64 (sub64 size size_t_size) array_size) else skip
  if chunks == 0
      then set_size_and_pinuse_of_inuse_chunk array_chunk (sub64 size contents_size)
      else skip
  let marray = if chunks == 0 then chunk2mem array_chunk else chunks
  split_elements sizes element_size marray (n_elements - 1) 0 p
      (if chunks == 0 then contents_size else size)
  postaction
  pure marray

-- `opts`: bit 0 (all elements of size sizes[0]) and bit 1 (clear) as two Booleans.
unfoldable pub ialloc : ℕ → (State → ℕ → ℕ) → (same clear : Bool) → ℕ → Cmd ℕ
unfolding add_sizes ialloc_chunk
ialloc n_elements sizes same clear chunks = do
  ensure_initialization
  s ← get
  let array_size = if chunks == 0 then request2size (mul64 n_elements 8) else 0
  let element_size = if same then request2size (sizes s 0) else 0
  let contents_size =
      if same then mul64 n_elements element_size else add_sizes (sizes s) n_elements 0 0
  let size = add64 contents_size array_size
  if n_elements == 0 then (if chunks == 0 then dlmalloc 0 else pure chunks) else (do
    disable_mmap
    mem ← dlmalloc (sub64 size chunk_overhead)
    if use_mmap s then enable_mmap else skip
    if mem == 0
        then pure 0
        else ialloc_chunk n_elements sizes element_size contents_size array_size clear chunks mem)

unfoldable pub dlindependent_calloc : ℕ → ℕ → ℕ → Cmd ℕ
dlindependent_calloc n_elements elem_size chunks =
    ialloc n_elements (λ s i. elem_size) true true chunks

unfoldable pub dlindependent_comalloc : ℕ → ℕ → ℕ → Cmd ℕ
dlindependent_comalloc n_elements sizes chunks =
    ialloc n_elements (λ s i. s.mem (sizes + 8 * i)) false false chunks
