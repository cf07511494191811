-- ===== src/Mosalloc/Allocator.antt =====
-- The calls that mosalloc serves from its regions (src/libmosalloc/src/allocator.rs).
pub mod Heap
pub mod Brk
pub mod Forward
pub mod Files
use mosalloc_rs.Base.{
  ℕ, ◌+◌, ◌-◌, ◌^◌, Bool, true, false, ◌&&◌, ◌||◌, not, Option, none, some, if◌then◌else◌, ◌==◌,
  leb, ltb, add64, sub64, max_size_t, bit_and, bit_or,
}
use mosalloc_rs.Mosalloc.System.{
  Cmd, panic, ◌>>=◌, ◌>>◌, pure, assert, unwrap, set_errno, call, mmap, munmap, mprotect, madvise,
  mremap, map_failed, enomem, eexist,
}
use mosalloc_rs.Mosalloc.Htlb.{AllocType, is_anon, is_file}
use mosalloc_rs.Mosalloc.Region.{
  Region, contains, alloc_range, free_range, lock, unlock, map_private, map_anonymous, map_shared,
  map_shared_validate, map_growsdown, map_hugetlb, map_fixed_noreplace, prot_read_write, no_fd,
}

pub record Allocator : Type 0 where
  pub heap : Region
  pub anon_region : Region
  pub file_region : Region
  pub analyze : Bool
  pub dryrun : Bool
  pub drained : Bool

-- NONSTD_FLAGS
abbrev pub nonstd_flags : ℕ
nonstd_flags = bit_or (bit_or (bit_or map_shared map_shared_validate) map_growsdown) map_hugetlb

-- usize::checked_add_signed, the increment as its 64-bit pattern.
abbrev pub checked_add_signed : ℕ → ℕ → Option ℕ
checked_add_signed a i =
    if ltb i (2 ^ 63)
    then (if ltb (a + i) (2 ^ 64) then some (a + i) else none)
    else if leb (2 ^ 64 - i) a
    then some (a - (2 ^ 64 - i))
    else none

-- `addr.unwrap_or_else(...)`
abbrev pub new_brk : ℕ → Option ℕ → Option ℕ → Cmd ℕ
new_brk oldbrk (some addr) incr = pure addr
new_brk oldbrk none incr = do i ← unwrap incr; unwrap (checked_add_signed oldbrk i)

-- The growth or the shrinking of the heap, whose lock is held.
abbrev pub move_brk : Region → ℕ → ℕ → Bool → Cmd Region
move_brk heap oldbrk newbrk dryrun =
    if ltb oldbrk newbrk
    then (do
      out ←
          alloc_range heap oldbrk (newbrk - oldbrk) prot_read_write
            (bit_or map_anonymous map_private) dryrun
      pure (out.0))
    else if ltb newbrk oldbrk
    then free_range heap newbrk (oldbrk - newbrk)
    else pure heap

unfoldable pub do_brk : Allocator → Option ℕ → Option ℕ → Cmd (Allocator × ℕ)
do_brk a addr incr = if not a.drained then (do set_errno enomem; pure (a, max_size_t)) else (do
  heap ← lock (a.heap)
  newbrk ← new_brk (heap.end) addr incr
  if not (contains heap newbrk)
      then (do set_errno enomem; pure (record a { heap = unlock heap }, max_size_t))
      else (do
        moved ← move_brk heap (heap.end) newbrk (a.dryrun)
        pure (record a { heap = unlock moved }, heap.end)))

-- The result -1 is its 32-bit pattern.
unfoldable pub brk : Allocator → ℕ → Cmd (Allocator × ℕ)
unfolding do_brk
brk a addr = do
  out ← do_brk a (some addr) none
  pure (out.0, if out.1 == max_size_t then 2 ^ 32 - 1 else 0)

unfoldable pub sbrk : Allocator → ℕ → Cmd (Allocator × ℕ)
unfolding do_brk
sbrk a incr = do_brk a none (some incr)

-- The region that a call is about; `none` for an address outside.
pub data Which : Type 0 where
  anon : Which
  file : Which

abbrev pub region_of : Allocator → Which → Region
region_of a anon = a.anon_region
region_of a file = a.file_region

abbrev pub with_region : Allocator → Which → Region → Allocator
with_region a anon r = record a { anon_region = r }
with_region a file r = record a { file_region = r }

unfoldable pub region_from_addr : Allocator → ℕ → Cmd (Option Which)
region_from_addr a addr = do
  assert (not (contains (a.heap) addr))
  pure (
      if contains (a.anon_region) addr
      then some anon
      else if contains (a.file_region) addr
      then some file
      else none)

abbrev pub region_from_fd : ℕ → Which
region_from_fd fd = if fd == no_fd then anon else file

unfoldable pub region_from_req : Allocator → ℕ → ℕ → Cmd (Option Which)
region_from_req a addr fd =
    if addr == 0 then pure (some (region_from_fd fd)) else region_from_addr a addr

-- mmap behind the allocation of the range.
abbrev pub mmap_result : Allocator → Which → ℕ → ℕ → ℕ → ℕ → ℕ → ℕ → Cmd (Allocator × ℕ)
mmap_result a w addr len prot flags fd offset =
    if addr == max_size_t
    then (do
      set_errno (if not (bit_and flags map_fixed_noreplace == 0) then eexist else enomem)
      pure (a, map_failed))
    else if is_file (region_of a w).alloc_type
    then (do ret ← call (mmap addr len prot flags fd offset); pure (a, ret))
    else pure (a, addr)

-- mmap behind the choice of the region.
abbrev pub mmap_in : Allocator → Option Which → ℕ → ℕ → ℕ → ℕ → ℕ → ℕ → Cmd (Allocator × ℕ)
mmap_in a none addr len prot flags fd offset = do
  ret ← call (mmap addr len prot flags fd offset)
  pure (a, ret)
mmap_in a (some w) addr len prot flags fd offset =
    if not a.drained && is_anon (region_of a w).alloc_type
    then (do set_errno enomem; pure (a, map_failed))
    else if is_anon (region_of a w).alloc_type && not (bit_and flags nonstd_flags == 0)
    then (do ret ← call (mmap addr len prot flags fd offset); pure (a, ret))
    else (do
      assert (addr == 0 || leb (add64 addr len) ((region_of a w).max))
      locked ← lock (region_of a w)
      out ← alloc_range locked addr len prot flags (a.dryrun)
      mmap_result (with_region a w (unlock (out.0))) w (out.1) len prot flags fd offset)

unfoldable pub mmap_request : Allocator → ℕ → ℕ → ℕ → ℕ → ℕ → ℕ → Cmd (Allocator × ℕ)
unfolding region_from_req region_from_addr
mmap_request a addr len prot flags fd offset = do
  region ← region_from_req a addr fd
  mmap_in a region addr len prot flags fd offset

abbrev pub munmap_in : Allocator → Option Which → ℕ → ℕ → Cmd (Allocator × ℕ)
munmap_in a none addr len = do ret ← call (munmap addr len); pure (a, ret)
munmap_in a (some w) addr len = do
  assert (leb (add64 addr len) ((region_of a w).max))
  locked ← lock (region_of a w)
  freed ← free_range locked addr len
  if is_file freed.alloc_type
      then (do ret ← call (munmap addr len); pure (with_region a w (unlock freed), ret))
      else pure (with_region a w (unlock freed), 0)

unfoldable pub munmap_request : Allocator → ℕ → ℕ → Cmd (Allocator × ℕ)
unfolding region_from_addr
munmap_request a addr len = do region ← region_from_addr a addr; munmap_in a region addr len

-- mprotect and madvise reach libc outside of the regions and in the file region.
abbrev pub to_libc : Allocator → Option Which → Bool
to_libc a none = true
to_libc a (some w) = is_file (region_of a w).alloc_type

unfoldable pub mprotect_request : Allocator → ℕ → ℕ → ℕ → Cmd ℕ
unfolding region_from_addr
mprotect_request a addr len prot = do
  region ← region_from_addr a addr
  if to_libc a region then call (mprotect addr len prot) else pure 0

unfoldable pub madvise_request : Allocator → ℕ → ℕ → ℕ → Cmd ℕ
unfolding region_from_addr
madvise_request a addr len advice = do
  region ← region_from_addr a addr
  if to_libc a region then call (madvise addr len advice) else pure 0

abbrev pub mremap_maymove : ℕ
mremap_maymove = 1

abbrev pub mremap_fixed : ℕ
mremap_fixed = 2

-- mremap from the second allocation on.
abbrev pub mremap_move : Allocator → Which → Region → ℕ → ℕ → ℕ → ℕ → Cmd (Allocator × ℕ)
mremap_move a w locked req_addr new_size flags new_address = do
  out ←
      alloc_range locked req_addr new_size prot_read_write (bit_or map_anonymous map_private)
        (a.dryrun)
  let a' = with_region a w (unlock (out.0))
  if not (req_addr == out.1) && not (bit_and flags mremap_fixed == 0)
      then (do set_errno eexist; pure (a', map_failed))
      else pure (a', new_address)

-- "non-fixed remap": the early returns leave the region locked.
abbrev pub mremap_in_place : Allocator → Which → Region → ℕ → ℕ → ℕ → ℕ → ℕ → Cmd (Allocator × ℕ)
mremap_in_place a w locked old_address old_size new_size flags new_address =
    if leb new_size old_size
    then (do
      freed ← free_range locked (add64 old_address new_size) (old_size - new_size)
      pure (with_region a w freed, old_address))
    else (do
      out ←
          alloc_range locked (add64 old_address old_size) (new_size - old_size) prot_read_write
            (bit_or map_anonymous map_private) (a.dryrun)
      if out.1 == add64 old_address old_size
          then pure (with_region a w (out.0), old_address)
          else (do
            assert (out.1 == max_size_t)
            if bit_and flags mremap_maymove == 0
                then (do set_errno enomem; pure (with_region a w (out.0), map_failed))
                else mremap_move a w (out.0) 0 new_size flags new_address))

abbrev pub mremap_in : Allocator → Option Which → ℕ → ℕ → ℕ → ℕ → ℕ → Cmd (Allocator × ℕ)
mremap_in a none old_address old_size new_size flags new_address = do
  ret ← call (mremap old_address old_size new_size flags new_address)
  pure (a, ret)
mremap_in a (some w) old_address old_size new_size flags new_address = do
  locked ← lock (region_of a w)
  assert (not (bit_and flags mremap_fixed == 0) && leb (add64 new_address new_size) (locked.max))
  if bit_and flags mremap_fixed == 0
      then mremap_in_place a w locked old_address old_size new_size flags new_address
      else mremap_move a w locked new_address new_size flags new_address

unfoldable pub mremap_request : Allocator → ℕ → ℕ → ℕ → ℕ → ℕ → Cmd (Allocator × ℕ)
unfolding region_from_addr
mremap_request a old_address old_size new_size flags new_address = do
  region ← region_from_addr a old_address
  mremap_in a region old_address old_size new_size flags new_address
