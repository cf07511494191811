-- ===== src/Mosalloc/Tests.antt =====
-- Three small regions of 16 pages each, and a libc that maps what it is asked to.
mod Regions
mod Calls
mod Arena
mod Threads
mod Ranges
mod Nodes
use mosalloc_rs.Base.{
  ℕ, ◌^◌, ◌+◌, ◌≤◌, leb, ltb, ◌&&◌, ◌<◌, ◌≡◌, ◌≢◌, refl, ◌⊎◌, inl, inr, arith, List, [], ◌∷◌, Bool,
  true, false, if◌then◌else◌, ◌==◌,
}
use native.Mathlib.Decide.{ℕ_discrete}
use mosalloc_rs.Mosalloc.System.{
  Call, Answer, Libc, Sys, mmap, munmap, mprotect, madvise, mremap, libc_brk, libc_sbrk, map_failed,
  eexist,
}
use mosalloc_rs.Mosalloc.Htlb.{AllocType, Pool}
use mosalloc_rs.Mosalloc.Htlb.AllocType.{brk, anon, file}
use mosalloc_rs.Mosalloc.Misc.Aligned.{IsPage}
use mosalloc_rs.Mosalloc.Region.{Region, contains}
use mosalloc_rs.Mosalloc.Region.Pages.{Maps, HasPages}
use mosalloc_rs.Mosalloc.Region.Invariant.{IsRegion}
use mosalloc_rs.Mosalloc.Allocator.{Allocator}
use mosalloc_rs.Mosalloc.Allocator.Heap.{range, IsHeap}
use mosalloc_rs.Mosalloc.Allocator.Brk.{IsDrained}
use mosalloc_rs.Mosalloc.Allocator.Files.{HasFiles, IsApart, Obeys}

abbrev pub kind_libc : Libc
kind_libc t (mmap p n prot flags fd offset) e = record { value = p; errno = eexist }
kind_libc t (munmap p n) e = record { value = 0; errno = e }
kind_libc t (mprotect p n prot) e = record { value = 0; errno = e }
kind_libc t (madvise p n advice) e = record { value = 0; errno = e }
kind_libc t (mremap p o n flags q) e = record { value = p; errno = e }
kind_libc t (libc_brk p) e = record { value = 0; errno = e }
kind_libc t (libc_sbrk i) e = record { value = 0x10000; errno = e }

abbrev pub sys : Sys
sys = record { libc = kind_libc; trace = []; errno = 0 }

pub kind_libc-Maps : Maps kind_libc
kind_libc-Maps t p n prot flags fd offset e = inr refl

pub kind_libc-Obeys : Obeys kind_libc
kind_libc-Obeys t p n prot flags fd offset e pos = refl

-- A region of 16 pages at `p`, taken up to `e`.
abbrev pub small_region : AllocType → ℕ → ℕ → Region
small_region t p e = record {
  alloc_type = t;
  pool = record {
    alloc_type = t;
    intervals = record { pagesz = 4096; start = 0; end = 0x10000 } ∷ [];
  };
  start = p;
  end = e;
  max = p + 0x10000;
  max_pgsz = 4096;
  len = 0x10000;
  free_map = range e (p + 0x10000) ∷ [];
  lock = true;
}

pub small-IsPage : IsPage 4096
small-IsPage = record { power = 12; value = refl; small = omega arith }

pub small_region-IsRegion :
    (t : AllocType) (p e : ℕ)
    → 0 < p
    → p < 2 ^ 32
    → p ≤ e
    → e < p + 0x10000
    → IsRegion (small_region t p e)
small_region-IsRegion t p e pos bound low high = record {
  map = (low, high, omega arith, tt);
  base = pos;
  bound = omega arith;
  low = low;
  top = omega arith;
  above = λ a l h. ground arith;
  pages = (small-IsPage, tt);
}

-- The heap has its break two pages above its start.
abbrev pub small : Allocator
small = record {
  heap = small_region brk 0x100000 0x102000;
  anon_region = small_region anon 0x200000 0x200000;
  file_region = small_region file 0x300000 0x300000;
  analyze = false;
  dryrun = false;
  drained = true;
}

pub small-IsDrained : IsDrained small
small-IsDrained = record {
  drained = refl;
  heap = record {
    region =
        small_region-IsRegion brk 0x100000 0x102000 (omega arith) (omega arith) (omega arith)
          (omega arith);
    high = (omega arith, omega arith);
    kind = refl;
    unlocked = refl;
    room = omega arith;
    free = refl;
  };
}

pub small-HasFiles : HasFiles small
small-HasFiles = record {
  region =
      small_region-IsRegion file 0x300000 0x300000 (omega arith) (omega arith) (omega arith)
        (omega arith);
  kind = refl;
  unlocked = refl;
}

pub small-IsApart : IsApart small
unfolding contains
small-IsApart b h = (ground arith, ground arith)
