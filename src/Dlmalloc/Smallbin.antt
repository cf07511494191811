-- ===== src/Dlmalloc/Smallbin.antt =====
-- Operations on smallbins (dlmalloc/dlmalloc.c, "Operations on smallbins").
pub mod Chain
pub mod Unlink
pub mod Bin
pub mod Remove
use mosalloc_rs.Base.{ℕ, ◌+◌, ◌*◌, Bool, true, false, ◌&&◌, ◌||◌, if◌then◌else◌, ◌==◌}
use mosalloc_rs.Dlmalloc.State.{
  State, Cmd, ◌>>=◌, ◌>>◌, get, modify, skip, load, store, error_action, fd_of, bk_of, smallbin_at,
}
use mosalloc_rs.Dlmalloc.Chunk.{ok_address}
use mosalloc_rs.Dlmalloc.Index.{small_index, map_is_marked, mark_map, clear_map}

abbrev mark_smallmap : ℕ → Cmd (Unit {0})
mark_smallmap i = modify (λ s. record s { smallmap = mark_map s.smallmap i })

abbrev clear_smallmap : ℕ → Cmd (Unit {0})
clear_smallmap i = modify (λ s. record s { smallmap = clear_map s.smallmap i })

-- The links of a chunk `p` between the bin header `b` and the chunk `f` behind it.
abbrev link_small_chunk : ℕ → ℕ → ℕ → Cmd (Unit {0})
link_small_chunk p b f = do
  store (fd_of b) p
  store (bk_of f) p
  store (fd_of p) f
  store (bk_of p) b

unfoldable pub insert_small_chunk : ℕ → ℕ → Cmd (Unit {0})
insert_small_chunk p n = do
  s ← get
  let i = small_index n
  let b = smallbin_at s i
  let f = s.mem (fd_of b)
  if map_is_marked s.smallmap i
      then (if ok_address s f then link_small_chunk p b f else error_action)
      else (do mark_smallmap i; link_small_chunk p b b)

unfoldable pub unlink_small_chunk : ℕ → ℕ → Cmd (Unit {0})
unlink_small_chunk p n = do
  s ← get
  let f = s.mem (fd_of p)
  let b = s.mem (bk_of p)
  let i = small_index n
  let bin = smallbin_at s i
  if f == bin || (ok_address s f && s.mem (bk_of f) == p)
      then (if b == f
          then clear_smallmap i
          else if b == bin || (ok_address s b && s.mem (fd_of b) == p)
          then (do store (bk_of f) b; store (fd_of b) f)
          else error_action)
      else error_action

unfoldable pub unlink_first_small_chunk : ℕ → ℕ → ℕ → Cmd (Unit {0})
unlink_first_small_chunk b p i = do
  s ← get
  let f = s.mem (fd_of p)
  if b == f
      then clear_smallmap i
      else if ok_address s f && s.mem (bk_of f) == p
      then (do store (bk_of f) b; store (fd_of b) f)
      else error_action

unfoldable pub replace_dv : ℕ → ℕ → Cmd (Unit {0})
unfolding insert_small_chunk
replace_dv p n = do
  s ← get
  if s.dvsize == 0 then skip else insert_small_chunk s.dv s.dvsize
  modify (λ s'. record s' { dvsize = n; dv = p })
