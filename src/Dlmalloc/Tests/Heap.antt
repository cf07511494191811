-- ===== src/Dlmalloc/Tests/Heap.antt =====
-- The theorems on malloc and free at the small heap.
use mosalloc_rs.Base.{[], ◌∷◌, ℕ, ◌+◌, ◌*◌, ◌^◌, ◌≡◌, ◌≢◌, ◌≤◌, ◌<◌, refl, arith, ◌⊎◌}
use mosalloc_rs.Dlmalloc.State.{Mem, abort, ◌>>=◌, ◌>>◌, head_of}
use mosalloc_rs.Dlmalloc.State.Returns.{Returns}
use mosalloc_rs.Dlmalloc.Sizes.{mem2chunk, request2size}
use mosalloc_rs.Dlmalloc.Mmap.{mmap_alloc, mmap_size}
use mosalloc_rs.Dlmalloc.Params.{align_to}
use mosalloc_rs.Dlmalloc.Malloc.{dlmalloc, use_dv}
use mosalloc_rs.Dlmalloc.Malloc.Top.{IsTop, OnlyTop, IsReady, CutsTop, dlmalloc-CutsTop}
use mosalloc_rs.Dlmalloc.Malloc.Sequence.{malloc_each, tiles, total, Serves, malloc_each-Serves}
use mosalloc_rs.Dlmalloc.Malloc.Victim.{SplitsDv, use_dv-SplitsDv}
use mosalloc_rs.Dlmalloc.Free.{dlfree, free_locked}
use mosalloc_rs.Dlmalloc.Free.Top.{KeepsTop, RestoresTop, dlfree-dlmalloc, dlfree-dlfree}
use mosalloc_rs.Dlmalloc.Free.Mapped.{free_locked-mmap_alloc}
use mosalloc_rs.Dlmalloc.Realloc.{dlcalloc}
use mosalloc_rs.Dlmalloc.Realloc.Bytes.{byte_at}
use mosalloc_rs.Dlmalloc.Realloc.Cleared.{dlcalloc-zero}
use mosalloc_rs.Dlmalloc.Tests.{only_top, with_dv, small_os}

only_top-IsReady : IsReady only_top
only_top-IsReady = record { initialised = omega arith; unlocked = refl }

only_top-OnlyTop : OnlyTop only_top
only_top-OnlyTop = record { smallmap = refl; treemap = refl; dv = refl; dvsize = refl }

only_top-IsTop : IsTop only_top
only_top-IsTop = record { aligned = refl; size_aligned = refl; room = omega arith; head = refl }

only_top-KeepsTop : KeepsTop only_top
only_top-KeepsTop = record { not_dv = omega arith; address = omega arith; no_trim = omega arith }

size_40 : request2size 40 < 4096
unfolding request2size
size_40 = omega arith

dlmalloc-CutsTop_example :
    Returns (λ mem s'. (mem ≡ 8208) × CutsTop only_top (request2size 40) s') (dlmalloc 40 only_top)
dlmalloc-CutsTop_example =
    dlmalloc-CutsTop only_top 40 only_top-IsReady only_top-OnlyTop only_top-IsTop (omega arith)
      size_40

dlfree-dlmalloc_example :
    Returns (λ _ s'. RestoresTop only_top (request2size 40) s') ((dlmalloc 40 >>= dlfree) only_top)
dlfree-dlmalloc_example =
    dlfree-dlmalloc only_top 40 only_top-IsReady only_top-OnlyTop only_top-IsTop only_top-KeepsTop
      (omega arith) size_40

dlfree-dlfree_example : (dlmalloc 40 >>= λ mem. dlfree mem >> dlfree mem) only_top ≡ abort
dlfree-dlfree_example =
    dlfree-dlfree only_top 40 only_top-IsReady only_top-OnlyTop only_top-IsTop only_top-KeepsTop
      (omega arith) size_40

use_dv-SplitsDv_example :
    Returns (λ mem s'. (mem ≡ 4112) × SplitsDv with_dv 48 s') (use_dv 48 with_dv)
use_dv-SplitsDv_example =
    use_dv-SplitsDv with_dv 48 refl (omega arith) (omega arith) refl (omega arith)

mmap_size_300000 : mmap_size only_top 300000 ≡ 303104
unfolding align_to
mmap_size_300000 = refl

mapping_fits : 65536 + mmap_size only_top 300000 + 64 < 2 ^ 64
mapping_fits = rw mmap_size_300000 (omega arith)

footprint_fits : 4096 + mmap_size only_top 300000 < 2 ^ 64
footprint_fits = rw mmap_size_300000 (omega arith)

free_locked-mmap_alloc_example :
    Returns
      (λ _ r.
        (r.footprint ≡ 4096)
        × ((m : Mem) × (r.mem ≡ (small_os.munmap 1 65536 (mmap_size only_top 300000) m).1)))
      ((mmap_alloc 300000 >>= λ mem. free_locked (mem2chunk mem)) only_top)
free_locked-mmap_alloc_example =
    free_locked-mmap_alloc only_top 300000 65536 8 refl refl refl (omega arith) refl (omega arith)
      refl mapping_fits footprint_fits (λ m. refl)

-- Five elements of five bytes, which end inside of a word.
dlcalloc-zero_example :
    Returns
      (λ mem s'.
        (mem ≡ 8208)
        × (s' ≡ record only_top { top = 8240; topsize = 4048; mem = s'.mem })
        × (s'.mem 8200 ≡ 51)
        × (s'.mem 8248 ≡ 4049)
        × ((i : ℕ) → 8 * i + 8 ≤ 5 * 5 → s'.mem (mem + 8 * i) ≡ 0)
        × ((i : ℕ) → i < 5 * 5 → byte_at s'.mem mem i ≡ 0)
        × ((i : ℕ)
            → 5 * 5 ≤ i
            → i + 8 < request2size (5 * 5)
            → byte_at s'.mem mem i ≡ byte_at only_top.mem mem i)
        × ((a : ℕ)
            → (a < mem) ⊎ (mem + 5 * 5 ≤ a)
            → a ≢ head_of only_top.top
            → a ≢ head_of (only_top.top + request2size (5 * 5))
            → s'.mem a ≡ only_top.mem a))
      (dlcalloc 5 5 only_top)
unfolding request2size
dlcalloc-zero_example =
    dlcalloc-zero only_top 5 5 only_top-IsReady only_top-OnlyTop only_top-IsTop (omega arith)
      (omega arith) (omega arith) (omega arith)

two_fit : total (40 ∷ 100 ∷ []) < 4096
unfolding request2size
two_fit = omega arith

malloc_each-Serves_example :
    Returns
      (λ mems s'. (mems ≡ tiles 8192 (40 ∷ 100 ∷ [])) × Serves only_top (40 ∷ 100 ∷ []) s')
      (malloc_each (40 ∷ 100 ∷ []) only_top)
malloc_each-Serves_example =
    malloc_each-Serves (40 ∷ 100 ∷ []) only_top only_top-IsReady only_top-OnlyTop only_top-IsTop
      (omega arith, (omega arith, tt)) two_fit
