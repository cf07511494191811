-- ===== src/Dlmalloc/Tests/Growth.antt =====
-- The theorems on growth, limits and searches at the small heap.
use mosalloc_rs.Base.{inr, ◌+◌, ◌-◌, ◌^◌, ◌≡◌, ◌≤◌, ◌<◌, refl, arith, [], ◌∷◌}
use mosalloc_rs.Dlmalloc.State.{◌>>=◌}
use mosalloc_rs.Dlmalloc.State.Returns.{Returns}
use mosalloc_rs.Dlmalloc.Sizes.{request2size}
use mosalloc_rs.Dlmalloc.Mmap.{mmap_alloc}
use mosalloc_rs.Dlmalloc.Mmap.Limit.{mmap_alloc-limit}
use mosalloc_rs.Dlmalloc.Malloc.{dlmalloc, smallest_loop}
use mosalloc_rs.Dlmalloc.Malloc.Top.{IsTop, OnlyTop, CutsTop}
use mosalloc_rs.Dlmalloc.Malloc.Sequence.{malloc_each, tiles, total, InUse}
use mosalloc_rs.Dlmalloc.Malloc.NewHeap.{malloc_each-new_heap}
use mosalloc_rs.Dlmalloc.Malloc.Smallest.{IsBest, smallest_loop-IsBest}
use mosalloc_rs.Dlmalloc.Realloc.{try_realloc_chunk}
use mosalloc_rs.Dlmalloc.Realloc.Grow.{BeforeTop, Grows, try_realloc_chunk-Grows}
use mosalloc_rs.Dlmalloc.Exported.{dlmalloc_usable_size}
use mosalloc_rs.Dlmalloc.Exported.Usable.{dlmalloc_usable_size-dlmalloc}
use mosalloc_rs.Dlmalloc.Params.{granularity_align, align_to}
use mosalloc_rs.Dlmalloc.SysAlloc.NewHeap.{IsNew}
use mosalloc_rs.Dlmalloc.Tests.{no_memory, only_top, before_top, limited, with_tree}

before_top-IsTop : IsTop before_top
before_top-IsTop = record { aligned = refl; size_aligned = refl; room = omega arith; head = refl }

before_top-BeforeTop : BeforeTop before_top 8128 64 1
before_top-BeforeTop = record {
  aligned = refl;
  positive = omega arith;
  bit_value = omega arith;
  head = refl;
  next = refl;
  address = omega arith;
}

try_realloc_chunk-Grows_example :
    Returns
      (λ newp s'. (newp ≡ 8128) × Grows before_top 8128 64 128 1 s')
      (try_realloc_chunk 8128 128 1 before_top)
try_realloc_chunk-Grows_example =
    try_realloc_chunk-Grows before_top 8128 64 128 1 1 before_top-IsTop before_top-BeforeTop refl
      (omega arith) (omega arith)

mmap_alloc-limit_example :
    Returns
      (λ mem s'. (s'.footprint ≤ s'.footprint_limit) × (s'.footprint_limit ≡ 1000000))
      (mmap_alloc 300000 limited)
mmap_alloc-limit_example = mmap_alloc-limit limited 300000 (omega arith) (omega arith)

only_top-IsTop : IsTop only_top
only_top-IsTop = record { aligned = refl; size_aligned = refl; room = omega arith; head = refl }

fits_top : request2size 40 < 4096
unfolding request2size
fits_top = omega arith

dlmalloc_usable_size-dlmalloc_example :
    Returns
      (λ r s'. (40 ≤ r) × (r < 40 + 25) × CutsTop only_top (request2size 40) s')
      ((dlmalloc 40 >>= dlmalloc_usable_size) only_top)
dlmalloc_usable_size-dlmalloc_example =
    dlmalloc_usable_size-dlmalloc only_top 40
      (record { initialised = omega arith; unlocked = refl })
      (record { smallmap = refl; treemap = refl; dv = refl; dvsize = refl }) only_top-IsTop
      (omega arith) fits_top

smallest_loop-IsBest_example :
    Returns
      (λ best s'.
        IsBest with_tree 512 (16384 ∷ 20480 ∷ []) (0, 2 ^ 64 - 512) best × (s' ≡ with_tree))
      (smallest_loop 64 512 16384 (0, 2 ^ 64 - 512) with_tree)
smallest_loop-IsBest_example =
    smallest_loop-IsBest 64 with_tree 512 16384 (16384 ∷ 20480 ∷ []) (0, 2 ^ 64 - 512)
      (refl, omega arith, (refl, omega arith, refl)) (omega arith)

no_memory-IsNew : IsNew no_memory 65536 4096 (λ a. 0)
no_memory-IsNew = record {
  initialised = omega arith;
  no_top = refl;
  no_topsize = refl;
  contiguous = refl;
  unlocked = refl;
  no_limit = refl;
  breaks = record {
    between = λ a. 0;
    first = refl;
    second = refl;
    page = refl;
    works = omega arith;
  };
  aligned = refl;
  room = omega arith;
  apart = inr (omega arith);
}

one_page : 4096 ≡ granularity_align no_memory (48 + 96)
unfolding align_to
one_page = refl

no_memory-OnlyTop : OnlyTop no_memory
no_memory-OnlyTop = record { smallmap = refl; treemap = refl; dv = refl; dvsize = refl }

size_40 : request2size 40 ≡ 48
unfolding request2size
size_40 = refl

two_fit_first : total (40 ∷ 100 ∷ []) + 80 < 4096
unfolding request2size
two_fit_first = omega arith

malloc_each-new_heap_example :
    Returns
      (λ mems s'. (mems ≡ tiles 65536 (40 ∷ 100 ∷ [])) × InUse s' 65536 (40 ∷ 100 ∷ []))
      (malloc_each (40 ∷ 100 ∷ []) no_memory)
malloc_each-new_heap_example =
    malloc_each-new_heap no_memory 40 (100 ∷ []) 12 65536 4096 (λ a. 0) (omega arith)
      (rw size_40 one_page) refl (rw size_40 (omega arith)) refl no_memory-OnlyTop no_memory-IsNew
      (omega arith, (omega arith, tt)) two_fit_first
