-- ===== src/Dlmalloc/Free.antt =====
-- free (dlmalloc/dlmalloc.c, dlfree and internal_bulk_free). Without FOOTERS the state is gm.
pub mod Top
pub mod Mapped
pub mod Binned
use mosalloc_rs.Base.{
  ℕ, zero, suc, ◌+◌, ◌*◌, ◌-◌, ◌/◌, ◌%◌, ◌^◌, Bool, true, false, ◌&&◌, not, if◌then◌else◌, ◌==◌,
  ltb, add64, sub64,
}
use mosalloc_rs.Dlmalloc.State.{
  State, Cmd, ◌>>=◌, ◌>>◌, pure, get, modify, skip, load, store, error_action, head_of,
}
use mosalloc_rs.Dlmalloc.Sizes.{mem2chunk, chunk2mem}
use mosalloc_rs.Dlmalloc.Chunk.{
  cinuse, pinuse, is_inuse, is_mmapped, chunksize, prev_foot, next_chunk, chunk_plus_offset,
  chunk_minus_offset, set_free_with_pinuse, set_inuse, ok_address, ok_next, ok_inuse, ok_pinuse,
}
use mosalloc_rs.Dlmalloc.Index.{is_small}
use mosalloc_rs.Dlmalloc.Smallbin.{insert_small_chunk}
use mosalloc_rs.Dlmalloc.Treebin.{insert_large_chunk, unlink_chunk}
use mosalloc_rs.Dlmalloc.Params.{preaction, postaction, should_trim}
use mosalloc_rs.Dlmalloc.SysTrim.{release_unused_segments, sys_trim}
use mosalloc_rs.Dlmalloc.Dispose.{unmap_chunk, join_top, join_dv, join_next, dispose_chunk}

-- The free chunk `p` is binned; every so often unused segments are released.
unfoldable pub bin_freed : ℕ → ℕ → Cmd (Unit {0})
bin_freed p psize = if is_small psize then insert_small_chunk p psize else (do
  insert_large_chunk p psize
  modify (λ s. record s { release_checks = sub64 s.release_checks 1 })
  s ← get
  if s.release_checks == 0 then (release_unused_segments >>= λ _. skip) else skip)

free_forward : ℕ → ℕ → ℕ → Cmd (Unit {0})
free_forward p psize next = do
  s ← get
  if ok_next p next && ok_pinuse s next
      then (if cinuse s next
          then (do set_free_with_pinuse p psize next; bin_freed p psize)
          else if next == s.top
          then (do
            tsize ← join_top p psize
            s' ← get
            if should_trim s' tsize then (sys_trim 0 >>= λ _. skip) else skip)
          else if next == s.dv
          then join_dv p psize
          else join_next p psize next (bin_freed p))
      else error_action

-- What stands between PREACTION and POSTACTION, for the chunk `p`.
unfoldable pub free_locked : ℕ → Cmd (Unit {0})
unfolding free_forward
free_locked p = do
  s ← get
  let psize = chunksize s p
  let next = chunk_plus_offset p psize
  let prevsize = prev_foot s p
  let prev = chunk_minus_offset p prevsize
  let size = add64 psize prevsize
  if ok_address s p && ok_inuse s p
      then (if pinuse s p
          then free_forward p psize next
          else if is_mmapped s p
          then unmap_chunk p psize
          else if ok_address s prev
          then (if prev == s.dv
              then (if s.mem (head_of next) % 4 == 3
                  then (do
                    modify (λ s'. record s' { dvsize = size })
                    set_free_with_pinuse prev size next)
                  else free_forward prev size next)
              else (do unlink_chunk prev prevsize; free_forward prev size next))
          else error_action)
      else error_action

unfoldable pub dlfree : ℕ → Cmd (Unit {0})
dlfree mem = if mem == 0 then skip else (do preaction; free_locked (mem2chunk mem); postaction)

-- The loop of internal_bulk_free over the array at `a`, with `n` elements left.
bulk_free_loop : ℕ → ℕ → Cmd (Unit {0})
bulk_free_loop zero a = skip
bulk_free_loop (suc n) a = do
  s ← get
  let mem = s.mem a
  let p = mem2chunk mem
  let psize = chunksize s p
  if mem == 0 then skip else (do
    store a 0
    s' ← get
    let next = next_chunk s' p
    if ok_address s' p && ok_inuse s' p
        then (if not (n == 0) && s'.mem (a + 8) == chunk2mem next
            then (do set_inuse p (add64 (chunksize s' next) psize); store (a + 8) (chunk2mem p))
            else dispose_chunk p psize)
        else error_action)
  bulk_free_loop n (a + 8)

unfoldable pub internal_bulk_free : ℕ → ℕ → Cmd ℕ
unfolding bulk_free_loop
internal_bulk_free array nelem = do
  preaction
  bulk_free_loop nelem array
  s ← get
  if should_trim s s.topsize then (sys_trim 0 >>= λ _. skip) else skip
  postaction
  pure 0
