-- ===== src/Dlmalloc/Dispose.antt =====
-- Consolidation of a chunk with its neighbours (dlmalloc/dlmalloc.c, dispose_chunk), with the
-- parts that free has in common with it.
use mosalloc_rs.Base.{ℕ, ◌%◌, if◌then◌else◌, ◌==◌, add64, sub64}
use mosalloc_rs.Dlmalloc.State.{
  Cmd, ◌>>=◌, ◌>>◌, pure, get, modify, skip, error_action, call_munmap, head_of,
}
use mosalloc_rs.Dlmalloc.Sizes.{mmap_foot_pad}
use mosalloc_rs.Dlmalloc.Chunk.{
  with_pinuse, cinuse, pinuse, is_mmapped, chunksize, prev_foot, set_head, chunk_plus_offset,
  chunk_minus_offset, set_size_and_pinuse_of_free_chunk, set_free_with_pinuse, ok_address,
}
use mosalloc_rs.Dlmalloc.Treebin.{insert_chunk, unlink_chunk}

-- A mapped chunk is given back to the system.
abbrev pub unmap_chunk : ℕ → ℕ → Cmd (Unit {0})
unmap_chunk p psize = do
  s ← get
  let prevsize = prev_foot s p
  let size = add64 psize (add64 prevsize mmap_foot_pad)
  r ← call_munmap (chunk_minus_offset p prevsize) size
  if r == 0 then modify (λ s'. record s' { footprint = sub64 s'.footprint size }) else skip

-- The chunk `p` joins top behind it: the new size of top.
abbrev pub join_top : ℕ → ℕ → Cmd ℕ
join_top p psize = do
  s ← get
  let tsize = add64 s.topsize psize
  modify (λ s'. record s' { topsize = tsize; top = p })
  set_head p (with_pinuse tsize)
  if p == s.dv then modify (λ s'. record s' { dv = 0; dvsize = 0 }) else skip
  pure tsize

-- The chunk `p` joins the designated victim behind it.
abbrev pub join_dv : ℕ → ℕ → Cmd (Unit {0})
join_dv p psize = do
  s ← get
  let dsize = add64 s.dvsize psize
  modify (λ s'. record s' { dvsize = dsize; dv = p })
  set_size_and_pinuse_of_free_chunk p dsize

-- The chunk `p` joins the binned chunk `next`: the size of both. `p` is binned unless it is dv.
abbrev pub join_next : ℕ → ℕ → ℕ → (ℕ → Cmd (Unit {0})) → Cmd (Unit {0})
join_next p psize next bin = do
  s ← get
  let nsize = chunksize s next
  let size = add64 psize nsize
  unlink_chunk next nsize
  set_size_and_pinuse_of_free_chunk p size
  s' ← get
  if p == s'.dv then modify (λ t. record t { dvsize = size }) else bin size

dispose_forward : ℕ → ℕ → ℕ → Cmd (Unit {0})
dispose_forward p psize next = do
  s ← get
  if ok_address s next
      then (if cinuse s next
          then (do set_free_with_pinuse p psize next; insert_chunk p psize)
          else if next == s.top
          then (join_top p psize >>= λ _. skip)
          else if next == s.dv
          then join_dv p psize
          else join_next p psize next (insert_chunk p))
      else error_action

unfoldable pub dispose_chunk : ℕ → ℕ → Cmd (Unit {0})
unfolding dispose_forward
dispose_chunk p psize = do
  s ← get
  let next = chunk_plus_offset p psize
  let prevsize = prev_foot s p
  let prev = chunk_minus_offset p prevsize
  let size = add64 psize prevsize
  if pinuse s p
      then dispose_forward p psize next
      else if is_mmapped s p
      then unmap_chunk p psize
      else if ok_address s prev
      then (if prev == s.dv
          then (if s.mem (head_of next) % 4 == 3
              then (do
                modify (λ s'. record s' { dvsize = size })
                set_free_with_pinuse prev size next)
              else dispose_forward prev size next)
          else (do unlink_chunk prev prevsize; dispose_forward prev size next))
      else error_action
