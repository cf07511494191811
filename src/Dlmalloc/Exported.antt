-- ===== src/Dlmalloc/Exported.antt =====
-- The other exported routines (dlmalloc/dlmalloc.c, "Exported realloc, memalign, etc").
pub mod Limit
pub mod Usable
use mosalloc_rs.Base.{
  ℕ, ◌+◌, ◌-◌, ◌%◌, ◌^◌, Bool, true, false, not, if◌then◌else◌, ◌==◌, sub64, max_size_t,
}
use mosalloc_rs.Dlmalloc.State.{State, Cmd, ◌>>=◌, ◌>>◌, pure, get, modify}
use mosalloc_rs.Dlmalloc.Sizes.{mem2chunk}
use mosalloc_rs.Dlmalloc.Chunk.{is_inuse, chunksize, overhead_for}
use mosalloc_rs.Dlmalloc.Params.{
  granularity_align, preaction, postaction, ensure_initialization, change_mparam,
}
use mosalloc_rs.Dlmalloc.SysTrim.{sys_trim}
use mosalloc_rs.Dlmalloc.Free.{internal_bulk_free}

unfoldable pub dlbulk_free : ℕ → ℕ → Cmd ℕ
dlbulk_free array nelem = internal_bulk_free array nelem

unfoldable pub dlmalloc_trim : ℕ → Cmd ℕ
dlmalloc_trim pad = do
  ensure_initialization
  preaction
  result ← sys_trim pad
  postaction
  pure result

unfoldable pub dlmalloc_footprint : Cmd ℕ
dlmalloc_footprint = do s ← get; pure s.footprint

unfoldable pub dlmalloc_max_footprint : Cmd ℕ
dlmalloc_max_footprint = do s ← get; pure s.max_footprint

unfoldable pub dlmalloc_footprint_limit : Cmd ℕ
dlmalloc_footprint_limit = do
  s ← get
  pure (if s.footprint_limit == 0 then max_size_t else s.footprint_limit)

-- The first `if` sets `result`, and the second one sets it again in both its branches.
unfoldable pub dlmalloc_set_footprint_limit : ℕ → Cmd ℕ
dlmalloc_set_footprint_limit bytes = do
  s ← get
  let result = if bytes == max_size_t then 0 else granularity_align s bytes
  modify (λ s'. record s' { footprint_limit = result })
  pure result

unfoldable pub dlmallopt : ℕ → ℕ → Cmd ℕ
dlmallopt param_number value = change_mparam param_number value

unfoldable pub dlmalloc_usable_size : ℕ → Cmd ℕ
dlmalloc_usable_size mem = do
  s ← get
  let p = mem2chunk mem
  pure
      (if mem == 0 then 0 else if is_inuse s p then sub64 (chunksize s p) (overhead_for s p) else 0)
