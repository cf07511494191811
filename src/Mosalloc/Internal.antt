-- ===== src/Mosalloc/Internal.antt =====
-- The allocator for the library's own data (src/libmosalloc/src/internal_allocator.rs).
--
-- The arena is a static at an address of its own. An update of `idx` is one step: no other thread
-- allocates in between.
pub mod Blocks
pub mod Live
pub mod Resize
use mosalloc_rs.Base.{
  ℕ, ◌+◌, ◌-◌, ◌*◌, ◌^◌, Bool, true, false, ◌&&◌, ◌||◌, not, Option, none, some, if◌then◌else◌,
  ◌==◌, leb, ltb, add64, sub64, min, bit_or,
}
use mosalloc_rs.Mosalloc.System.{
  Cmd, ok, segfault, ◌>>=◌, ◌>>◌, pure, assert, unwrap, call, mmap, munmap, mremap, map_failed,
}
use mosalloc_rs.Mosalloc.Misc.{align_up, is_power_of_two}
use mosalloc_rs.Mosalloc.Region.{map_anonymous, map_private, no_fd}
use mosalloc_rs.Mosalloc.Allocator.{mremap_maymove}

abbrev pub arena_size : ℕ
arena_size = 256 * 1024

abbrev pub max_supported_align : ℕ
max_supported_align = 4096

abbrev pub mmap_threshold : ℕ
mmap_threshold = 4096

-- `arena` is the address of the array, `memory` the byte at each address.
pub record InternalAllocator : Type 0 where
  pub arena : ℕ
  pub idx : ℕ
  pub mmap_total : ℕ
  pub mmap_overhead : ℕ
  pub memory : ℕ → ℕ

pub record Layout : Type 0 where
  pub size : ℕ
  pub align : ℕ

-- Layout::from_size_align
abbrev pub from_size_align : ℕ → ℕ → Option Layout
from_size_align size align =
    if is_power_of_two align && leb (size + align) (2 ^ 63)
    then some (record { size = size; align = align })
    else none

-- ptr::write_bytes and ptr::copy_nonoverlapping. Nothing is mapped at the null pointer, nor at the
-- last address, which is MAP_FAILED.
abbrev pub unmapped : ℕ → Bool
unmapped p = p == 0 || p == map_failed

abbrev pub write_bytes : ℕ → ℕ → ℕ → InternalAllocator → Cmd InternalAllocator
write_bytes dst val count a =
    if unmapped dst && ltb 0 count
    then (λ s. segfault)
    else pure
        (record a { memory = λ p. if leb dst p && ltb p (dst + count) then val else a.memory p })

abbrev pub copy_nonoverlapping : ℕ → ℕ → ℕ → InternalAllocator → Cmd InternalAllocator
copy_nonoverlapping src dst count a =
    if (unmapped src || unmapped dst) && ltb 0 count
    then (λ s. segfault)
    else pure (record a {
      memory =
          λ p. if leb dst p && ltb p (dst + count) then a.memory (src + (p - dst)) else a.memory p;
    })

abbrev pub mmap_alloc : ℕ → Cmd ℕ
mmap_alloc size = call (mmap 0 size 7 (bit_or map_anonymous map_private) no_fd 0)

-- The counters of the mapped bytes, which wrap around.
abbrev pub count_up : InternalAllocator → ℕ → Cmd InternalAllocator
count_up a size = do
  up ← align_up size 4096
  pure (record a {
    mmap_total = add64 a.mmap_total size;
    mmap_overhead = add64 a.mmap_overhead (sub64 up size);
  })

abbrev pub count_down : InternalAllocator → ℕ → Cmd InternalAllocator
count_down a size = do
  up ← align_up size 4096
  pure (record a {
    mmap_total = sub64 a.mmap_total size;
    mmap_overhead = sub64 a.mmap_overhead (sub64 up size);
  })

-- usize::checked_add
abbrev pub checked_add : ℕ → ℕ → Option ℕ
checked_add a b = if ltb (a + b) (2 ^ 64) then some (a + b) else none

-- `ok(prev_idx)`
abbrev pub take_arena : InternalAllocator → Layout → Bool → Cmd (InternalAllocator × ℕ)
take_arena a layout zero = do
  idx ← align_up (a.idx) (layout.align)
  new_idx ← unwrap (checked_add idx (layout.size))
  if ltb arena_size new_idx then pure (a, 0) else (do
    offset ← align_up (a.idx) (layout.align)
    let a' = record a { idx = new_idx }
    if zero
        then (do
          zeroed ← write_bytes (add64 a.arena offset) 0 (layout.size) a'
          pure (zeroed, add64 a.arena offset))
        else pure (a', add64 a.arena offset))

unfoldable pub alloc_helper : InternalAllocator → Layout → Bool → Cmd (InternalAllocator × ℕ)
alloc_helper a layout zero =
    if ltb max_supported_align layout.align
    then pure (a, 0)
    else if leb mmap_threshold layout.size
    then (do
      counted ← count_up a (layout.size)
      ptr ← mmap_alloc (layout.size)
      pure (counted, ptr))
    else take_arena a layout zero

unfoldable pub alloc : InternalAllocator → Layout → Cmd (InternalAllocator × ℕ)
unfolding alloc_helper
alloc a layout = alloc_helper a layout false

unfoldable pub alloc_zeroed : InternalAllocator → Layout → Cmd (InternalAllocator × ℕ)
unfolding alloc_helper
alloc_zeroed a layout = alloc_helper a layout true

-- Whether a block is the last one of the arena.
abbrev pub on_top : InternalAllocator → ℕ → ℕ → Bool
on_top a ptr size = add64 ptr size == add64 a.arena a.idx

unfoldable pub dealloc : InternalAllocator → ℕ → Layout → Cmd InternalAllocator
dealloc a ptr layout =
    if leb mmap_threshold layout.size
    then (do
      counted ← count_down a (layout.size)
      ret ← call (munmap ptr (layout.size))
      assert (ret == 0)
      pure counted)
    else if on_top a ptr layout.size
    then pure (record a { idx = sub64 a.idx layout.size })
    else pure a

-- `^` on bool
abbrev pub xor : Bool → Bool → Bool
xor true b = not b
xor false b = b

-- The update of `idx` in realloc; `none` when the block has to move.
abbrev pub resize : InternalAllocator → ℕ → ℕ → ℕ → Option ℕ
resize a ptr old_size new_size =
    if not (on_top a ptr old_size)
    then none
    else if ltb new_size old_size
    then some (sub64 a.idx (old_size - new_size))
    else if ltb arena_size (add64 a.idx (new_size - old_size))
    then none
    else some (add64 a.idx (new_size - old_size))

-- A block of the new size with the bytes of the old one.
abbrev pub move_to_new : InternalAllocator → ℕ → Layout → ℕ → Cmd (InternalAllocator × ℕ)
unfolding alloc alloc_helper
move_to_new a ptr layout new_size = do
  new_layout ← unwrap (from_size_align new_size (layout.align))
  out ← alloc a new_layout
  copied ← copy_nonoverlapping ptr (out.1) (min (layout.size) new_size) (out.0)
  pure (copied, out.1)

abbrev pub realloc_arena :
    InternalAllocator → ℕ → Layout → ℕ → Option ℕ → Cmd (InternalAllocator × ℕ)
realloc_arena a ptr layout new_size (some idx) = pure (record a { idx = idx }, ptr)
realloc_arena a ptr layout new_size none = move_to_new a ptr layout new_size

-- The call of mremap goes by the library's own hook, which passes it on: no region holds the block.
unfoldable pub realloc : InternalAllocator → ℕ → Layout → ℕ → Cmd (InternalAllocator × ℕ)
unfolding dealloc
realloc a ptr layout new_size =
    if xor (leb mmap_threshold layout.size) (leb mmap_threshold new_size)
    then (do
      out ← move_to_new a ptr layout new_size
      freed ← dealloc (out.0) ptr layout
      pure (freed, out.1))
    else if leb mmap_threshold layout.size
    then (do
      less ← count_down a (layout.size)
      more ← count_up less new_size
      ret ← call (mremap ptr (layout.size) new_size mremap_maymove 0)
      assert (not (ret == map_failed))
      pure (more, ret))
    else realloc_arena a ptr layout new_size (resize a ptr layout.size new_size)
