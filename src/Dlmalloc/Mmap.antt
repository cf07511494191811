-- ===== src/Dlmalloc/Mmap.antt =====
-- Direct-mmapping chunks (dlmalloc/dlmalloc.c, mmap_alloc and mmap_resize).
pub mod Limit
use mosalloc_rs.Base.{
  ℕ, ◌+◌, Bool, ◌&&◌, ◌||◌, not, if◌then◌else◌, ◌==◌, leb, ltb, add64, sub64, shl64, max_size_t,
}
use mosalloc_rs.Dlmalloc.State.{
  State, Cmd, ◌>>=◌, ◌>>◌, pure, get, modify, store, call_mmap, call_mremap,
}
use mosalloc_rs.Dlmalloc.Sizes.{align_offset, chunk2mem, size_t_size, mmap_foot_pad}
use mosalloc_rs.Dlmalloc.Chunk.{
  fencepost_head, chunksize, prev_foot, set_head, chunk_plus_offset, chunk_minus_offset,
}
use mosalloc_rs.Dlmalloc.Index.{is_small}
use mosalloc_rs.Dlmalloc.Params.{mmap_align}

-- MFAIL and CMFAIL.
abbrev pub mfail : ℕ
mfail = max_size_t

-- `m->footprint_limit != 0` and the new footprint wraps around or is above the limit.
abbrev pub over_limit : State → ℕ → Bool
over_limit s size =
    let fp = add64 s.footprint size in
    not (s.footprint_limit == 0) && (leb fp s.footprint || ltb s.footprint_limit fp)

-- `if ((m->footprint += size) > m->max_footprint) m->max_footprint = m->footprint;`
abbrev pub add_footprint : ℕ → Cmd (Unit {0})
add_footprint size = modify (λ s. record s {
  footprint = add64 s.footprint size;
  max_footprint =
      if ltb s.max_footprint (add64 s.footprint size)
      then add64 s.footprint size
      else s.max_footprint;
})

-- The head of a mapped chunk of size `psize` and the two words of the fake chunks behind it.
abbrev pub mark_mmapped : ℕ → ℕ → Cmd (Unit {0})
mark_mmapped p psize = do
  set_head p psize
  set_head (chunk_plus_offset p psize) fencepost_head
  set_head (chunk_plus_offset p (add64 psize size_t_size)) 0

-- The size that is asked of the system for a chunk of size `nb`.
abbrev pub mmap_size : State → ℕ → ℕ
mmap_size s nb = mmap_align s (add64 nb (48 + 15))

-- The part of mmap_alloc after a mapping `mm` of `mmsize` bytes is had.
mmap_chunk : ℕ → ℕ → Cmd ℕ
mmap_chunk mm mmsize = do
  let offset = align_offset (chunk2mem mm)
  let psize = sub64 (sub64 mmsize offset) mmap_foot_pad
  let p = add64 mm offset
  store p offset
  mark_mmapped p psize
  modify (λ s. record s {
    least_addr = if s.least_addr == 0 || ltb mm s.least_addr then mm else s.least_addr;
  })
  add_footprint mmsize
  pure (chunk2mem p)

unfoldable pub mmap_alloc : ℕ → Cmd ℕ
unfolding mmap_chunk
mmap_alloc nb = do
  s ← get
  let mmsize = mmap_size s nb
  if over_limit s mmsize
      then pure 0
      else if ltb nb mmsize
      then (do mm ← call_mmap mmsize; if mm == mfail then pure 0 else mmap_chunk mm mmsize)
      else pure 0

-- The part of mmap_resize after the mapping has moved to `cp`.
mmap_resized : ℕ → ℕ → ℕ → ℕ → Cmd ℕ
mmap_resized cp offset oldmmsize newmmsize = do
  let newp = add64 cp offset
  let psize = sub64 (sub64 newmmsize offset) mmap_foot_pad
  mark_mmapped newp psize
  modify (λ s. record s { least_addr = if ltb cp s.least_addr then cp else s.least_addr })
  add_footprint (sub64 newmmsize oldmmsize)
  pure newp

unfoldable pub mmap_resize : ℕ → ℕ → ℕ → Cmd ℕ
unfolding mmap_resized
mmap_resize oldp nb flags = do
  s ← get
  let oldsize = chunksize s oldp
  if is_small nb
      then pure 0
      else if leb (add64 nb size_t_size) oldsize
          && leb (sub64 oldsize nb) (shl64 s.mparams.granularity 1)
      then pure oldp
      else (do
        let offset = prev_foot s oldp
        let oldmmsize = add64 (add64 oldsize offset) mmap_foot_pad
        let newmmsize = mmap_size s nb
        cp ← call_mremap (chunk_minus_offset oldp offset) oldmmsize newmmsize flags
        if cp == mfail then pure 0 else mmap_resized cp offset oldmmsize newmmsize)
