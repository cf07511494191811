-- ===== src/Mosalloc/Region.antt =====
-- Regions of addresses and their free maps (src/libmosalloc/src/region.rs).
pub mod Pages
pub mod Invariant
pub mod Allocate
pub mod Release
use mosalloc_rs.Base.{
  ℕ, zero, suc, ◌/◌, ◌%◌, ◌^◌, ◌+◌, ◌-◌, ◌*◌, List, [], ◌∷◌, ◌++◌, Bool, true, false, ◌&&◌, ◌||◌,
  not, Option, none, some, if◌then◌else◌, ◌==◌, leb, ltb, add64, sub64, max_size_t, bit_and, bit_or,
  max, position, set, remove, insert, length,
}
use mosalloc_rs.Mosalloc.System.{
  Cmd, ok, panic, spins, out_of_fuel, ◌>>=◌, ◌>>◌, pure, assert, elem_at, get_errno, call, mmap,
  map_failed, eexist,
}
use mosalloc_rs.Mosalloc.Misc.{align_up, align_down}
use mosalloc_rs.Mosalloc.FreeMap.{
  Range, range_contains, del_range_from_freemap, add_range_to_freemap,
}
use mosalloc_rs.Mosalloc.Htlb.{page_size, AllocType, is_file, Interval, Pool}

-- The lock is `true` when it is free.
pub record Region : Type 0 where
  pub alloc_type : AllocType
  pub pool : Pool
  pub start : ℕ
  pub end : ℕ
  pub max : ℕ
  pub max_pgsz : ℕ
  pub len : ℕ
  pub free_map : List Range
  pub lock : Bool

-- The fold over the intervals: the largest page size and the largest end.
largest : List Interval → ℕ → ℕ → ℕ × ℕ
largest [] pgsz end = (pgsz, end)
largest (x ∷ xs) pgsz end = largest xs (max x.pagesz pgsz) (max x.end end)

-- The argument `len` only sets a capacity.
unfoldable pub new : Pool → AllocType → ℕ → Region
unfolding largest
new pool alloc_type len =
    let sizes = largest pool.intervals 0 0 in
    record {
      alloc_type = alloc_type;
      pool = pool;
      start = 0;
      end = 0;
      max = 0;
      max_pgsz = sizes.0;
      len = sizes.1;
      free_map = [];
      lock = true;
    }

unfoldable pub init : Region → ℕ → Region
init r start =
    let top = add64 start r.len in
    record r {
      start = start;
      end = start;
      max = top;
      free_map = r.free_map ++ record { start = start; end = top } ∷ [];
    }

-- find_map and unwrap_or
interval_pagesz : List Interval → ℕ → ℕ
interval_pagesz [] offset = page_size
interval_pagesz (x ∷ xs) offset =
    if leb x.start offset && leb offset x.end then x.pagesz else interval_pagesz xs offset

unfoldable pub get_addr_pagesz : Region → ℕ → ℕ
unfolding interval_pagesz
get_addr_pagesz r addr = interval_pagesz r.pool.intervals (sub64 addr r.start)

unfoldable pub contains : Region → ℕ → Bool
contains r addr = leb r.start addr && ltb addr r.max

-- The flags of mmap and mremap, from <sys/mman.h>.
abbrev pub map_shared : ℕ
map_shared = 0x1

abbrev pub map_private : ℕ
map_private = 0x2

abbrev pub map_shared_validate : ℕ
map_shared_validate = 0x3

abbrev pub map_fixed : ℕ
map_fixed = 0x10

abbrev pub map_anonymous : ℕ
map_anonymous = 0x20

abbrev pub map_growsdown : ℕ
map_growsdown = 0x100

abbrev pub map_hugetlb : ℕ
map_hugetlb = 0x40000

abbrev pub map_fixed_noreplace : ℕ
map_fixed_noreplace = 0x100000

-- MAP_HUGE_SHIFT
abbrev pub map_huge_shift : ℕ
map_huge_shift = 26

abbrev pub prot_read_write : ℕ
prot_read_write = 3

-- An `fd` of -1.
abbrev pub no_fd : ℕ
no_fd = 2 ^ 32 - 1

-- usize::trailing_zeros, of a number that has at most `n` bits.
trailing_zeros : ℕ → ℕ → ℕ
trailing_zeros zero m = 0
trailing_zeros (suc n) m = if m % 2 == 0 then suc (trailing_zeros n (m / 2)) else 0

-- The flags that alloc passes on to mmap.
pub huge_flags : ℕ → ℕ → Bool → ℕ
unfolding trailing_zeros
huge_flags pagesz flags dryrun =
    let hflags = bit_or flags map_fixed_noreplace in
    if ltb page_size pagesz && not dryrun
    then bit_or hflags (bit_or map_hugetlb (trailing_zeros 64 pagesz * 2 ^ map_huge_shift % 2 ^ 32))
    else hflags

unfoldable pub alloc : ℕ → ℕ → ℕ → ℕ → Bool → Cmd (Unit {0})
unfolding huge_flags
alloc addr pagesz prot flags dryrun = do
  page ← align_down addr pagesz
  ret ←
      call (mmap page pagesz (bit_or prot prot_read_write) (huge_flags pagesz flags dryrun) no_fd 0)
  if ret == map_failed then (do e ← get_errno; assert (e == eexist)) else pure tt

-- `while cur < end`
unfoldable pub map_pages : ℕ → Region → ℕ → ℕ → ℕ → ℕ → Bool → Cmd (Unit {0})
unfolding alloc
map_pages zero r cur end prot flags dryrun s = out_of_fuel
map_pages (suc fuel) r cur end prot flags dryrun s =
    let round : Cmd (Unit {0}) = (do
      page ← align_down cur (get_addr_pagesz r cur)
      alloc page (get_addr_pagesz r cur) prot flags dryrun >>= λ _.
          (map_pages fuel r (add64 page (get_addr_pagesz r cur)) end prot flags dryrun)) in
    (if ltb cur end then round else pure tt) s

-- The part of alloc_range behind the search for `start`. Every round of the loop moves `cur` up, so
-- that the length of the range is enough fuel.
unfoldable pub commit : Region → ℕ → ℕ → ℕ → ℕ → Bool → Cmd (Region × ℕ)
unfolding map_pages
commit r start len prot flags dryrun = do
  let end = add64 start len
  let r' = record r { end = if ltb r.end end then end else r.end }
  if is_file r'.alloc_type
      then pure (r', start)
      else (map_pages (suc len) r' start end prot flags dryrun >>= λ _. pure (r', start))

-- The assertion for MAP_FIXED, where `start` is usize::MAX.
abbrev pub none_contains : ℕ → ℕ → List Range → Bool
none_contains start len [] = true
none_contains start len (x ∷ xs) =
    not (range_contains x start)
    && not (range_contains x (add64 start len))
    && none_contains start len xs

unfoldable pub alloc_range : Region → ℕ → ℕ → ℕ → ℕ → Bool → Cmd (Region × ℕ)
alloc_range r addr length prot flags dryrun = do
  len ← align_up length page_size
  out ← del_range_from_freemap addr len (r.free_map)
  let r1 = record r { free_map = out.0 }
  let start = out.1
  if start == max_size_t
      then (if not (bit_and flags map_fixed_noreplace == 0)
          then pure (r1, start)
          else if not (bit_and flags map_fixed == 0)
          then (do assert (none_contains start len (r1.free_map)); pure (r1, addr))
          else (do
            other ← del_range_from_freemap 0 len (r1.free_map)
            let r2 = record r1 { free_map = other.0 }
            if other.1 == max_size_t
                then pure (r2, other.1)
                else commit r2 (other.1) len prot flags dryrun))
      else commit r1 start len prot flags dryrun

-- `if let Some(r) = self.free_map.iter().last()`
abbrev pub last_start : List Range → ℕ → ℕ
last_start [] start = start
last_start (x ∷ xs) start = last_start xs (x.start)

unfoldable pub free_range : Region → ℕ → ℕ → Cmd Region
free_range r start length = do
  len ← align_up length page_size
  free_map ← add_range_to_freemap start len (r.free_map)
  pure (record r {
    free_map = free_map;
    end = if r.end == add64 start len then last_start free_map (r.start) else r.end;
  })

-- Another thread would have to release a lock that is held.
unfoldable pub lock : Region → Cmd Region
lock r = if r.lock then pure (record r { lock = false }) else (λ s. spins)

abbrev pub unlock : Region → Region
unlock r = record r { lock = true }
