-- ===== src/Mosalloc/Placement.antt =====
-- Allocator::new: the three regions are placed between the mappings of the process
-- (src/libmosalloc/src/allocator.rs).
--
-- The lines of /proc/self/maps and the pools read from the configuration are arguments.
pub mod Start
pub mod Gaps
use mosalloc_rs.Base.{
  ℕ, ◌-◌, ◌^◌, List, [], ◌∷◌, Bool, true, false, ◌&&◌, ◌||◌, not, if◌then◌else◌, ◌==◌, leb, ltb,
  max_size_t,
}
use mosalloc_rs.Mosalloc.System.{
  Cmd, panic, ◌>>=◌, ◌>>◌, pure, assert, call, mmap, munmap, mprotect, madvise, mremap, libc_brk,
  libc_sbrk,
}
use mosalloc_rs.Mosalloc.Misc.{align_up}
use mosalloc_rs.Mosalloc.Htlb.{AllocType, Pool, new_file_pool}
use mosalloc_rs.Mosalloc.Htlb.AllocType.{brk, anon, file}
use mosalloc_rs.Mosalloc.Region.{Region, init, no_fd}
use mosalloc_rs.Mosalloc.Region
use mosalloc_rs.Mosalloc.Allocator.{Allocator}

-- A line of /proc/self/maps: its range, and whether it is the stack.
pub record Mapping : Type 0 where
  pub low : ℕ
  pub high : ℕ
  pub stack : Bool

-- The local variables of the loop; `region` tells which of the regions the variable refers to.
pub record Search : Type 0 where
  pub heap : Region
  pub anon_region : Region
  pub file_region : Region
  pub last : ℕ
  pub upper : ℕ
  pub region : AllocType

abbrev pub current : Search → Region
current q = at q.region
  where
    at : AllocType → Region
    at brk = q.heap
    at anon = q.anon_region
    at file = q.file_region

-- The condition of the inner loop, for the region `r`.
abbrev pub has_gap : ℕ → ℕ → Region → ℕ → Bool
has_gap last upper r low = leb upper last && ltb last low && leb r.len (low - last)

-- The rounds of the inner loop, one for each region that is left; `true` for `break 'outer`.
unfoldable pub place_file : Search → ℕ → Cmd (Search × Bool)
place_file q low =
    if has_gap q.last q.upper q.file_region low
    then (do
      let r = init (q.file_region) (q.last)
      pure (record q { file_region = r; upper = r.max }, true))
    else pure (q, false)

unfoldable pub place_anon : Search → ℕ → Cmd (Search × Bool)
unfolding place_file
place_anon q low =
    if has_gap q.last q.upper q.anon_region low
    then (do
      let r = init (q.anon_region) (q.last)
      upper ← align_up (r.max) (q.file_region.max_pgsz)
      place_file (record q { anon_region = r; upper = upper; last = upper; region = file }) low)
    else pure (q, false)

unfoldable pub place_heap : Search → ℕ → Cmd (Search × Bool)
unfolding place_anon
place_heap q low =
    if has_gap q.last q.upper q.heap low
    then (do
      let r = init (q.heap) (q.last)
      ret ← call (libc_brk (r.start))
      assert (not (ret == 2 ^ 32 - 1))
      upper ← align_up (r.max) (q.anon_region.max_pgsz)
      place_anon (record q { heap = r; upper = upper; last = upper; region = anon }) low)
    else pure (q, false)

abbrev pub place : Search → ℕ → Cmd (Search × Bool)
place q = at q.region
  where
    at : AllocType → ℕ → Cmd (Search × Bool)
    at brk = place_heap q
    at anon = place_anon q
    at file = place_file q

abbrev pub is_brk : AllocType → Bool
is_brk brk = true
is_brk anon = false
is_brk file = false

-- `'outer`
unfoldable pub search : List Mapping → Search → Cmd Search
unfolding place_heap
search [] q = pure q
search (m ∷ ms) q =
    let rest = search ms in
    if ltb q.last q.upper
    then (do last ← align_up (m.high) ((current q).max_pgsz); rest (record q { last = last }))
    else (do
      out ← place q (m.low)
      if out.1
          then pure (out.0)
          else if is_brk (out.0.region) || m.stack
          then (λ s. panic)
          else rest (out.0))

-- The calls that initialize the hooks.
abbrev pub touch_hooks : Cmd ℕ
touch_hooks = do
  a ← call (mmap max_size_t 0 0 0 no_fd 0)
  b ← call (munmap max_size_t 0)
  c ← call (mprotect max_size_t 0 0)
  d ← call (madvise max_size_t 0 0)
  call (mremap max_size_t 0 0 0 max_size_t)

unfoldable pub new : Pool → Pool → ℕ → ℕ → ℕ → Bool → Bool → List Mapping → Bool → Cmd Allocator
unfolding search new_file_pool
new heap_pool anon_pool anon_ffa_size file_pool_size file_ffa_size analyze dryrun maps drained = do
  file_pool ← new_file_pool file_pool_size
  let heap = Region.new heap_pool brk 1
  let anon_region = Region.new anon_pool anon anon_ffa_size
  let file_region = Region.new file_pool file file_ffa_size
  top ← call (libc_sbrk 0)
  initial_brk ← align_up top (heap.max_pgsz)
  q ← search maps (record {
    heap = heap;
    anon_region = anon_region;
    file_region = file_region;
    last = 0;
    upper = initial_brk;
    region = brk;
  })
  ret ← touch_hooks
  pure (record {
    heap = q.heap;
    anon_region = q.anon_region;
    file_region = q.file_region;
    analyze = analyze;
    dryrun = dryrun;
    drained = drained;
  })
