-- ===== src/Dlmalloc/Tests/Numbers.antt =====
-- The theorems on sizes, indices, maps, alignments and parameters at small numbers.
use mosalloc_rs.Base.{ℕ, ◌+◌, ◌*◌, ◌%◌, ◌^◌, ◌≡◌, ◌≤◌, ◌<◌, arith, if◌then◌else◌, leb, max_size_t}
use mosalloc_rs.Dlmalloc.State.Returns.{Returns}
use mosalloc_rs.Dlmalloc.Sizes.{request2size, min_chunk_size, chunk_overhead}
use mosalloc_rs.Dlmalloc.Sizes.Bounds.{request2size-IsLeast}
use mosalloc_rs.Dlmalloc.Index.{compute_tree_index, least_bit, compute_bit2idx}
use mosalloc_rs.Dlmalloc.Index.Tree.{InTreeBin, compute_tree_index-InTreeBin}
use mosalloc_rs.Dlmalloc.Index.Maps.{IsLowest, compute_bit2idx-IsLowest}
use mosalloc_rs.Dlmalloc.Realloc.{calloc_request}
use mosalloc_rs.Dlmalloc.Realloc.Request.{calloc_request-exact}
use mosalloc_rs.Dlmalloc.Memalign.{fix_alignment, aligned_pos}
use mosalloc_rs.Dlmalloc.Memalign.Power.{IsFit, fix_alignment-IsFit}
use mosalloc_rs.Dlmalloc.Memalign.Place.{aligned_pos-fits}
use mosalloc_rs.Dlmalloc.Tests.{only_top}

request2size-IsLeast_example :
    (request2size 40 % 16 ≡ 0)
    × (min_chunk_size ≤ request2size 40)
    × (40 + chunk_overhead ≤ request2size 40)
    × ((n : ℕ) → n % 16 ≡ 0 → min_chunk_size ≤ n → 40 + chunk_overhead ≤ n → request2size 40 ≤ n)
request2size-IsLeast_example = request2size-IsLeast 40 (omega arith)

compute_tree_index-InTreeBin_example : InTreeBin 5000 (compute_tree_index 5000)
compute_tree_index-InTreeBin_example = compute_tree_index-InTreeBin 5000 (omega arith) (omega arith)

compute_bit2idx-IsLowest_example :
    (compute_bit2idx (least_bit 40) < 32) × IsLowest 40 (compute_bit2idx (least_bit 40))
compute_bit2idx-IsLowest_example = compute_bit2idx-IsLowest 40 (omega arith) (omega arith)

calloc_request-exact_example :
    calloc_request (2 ^ 33) (2 ^ 32)
    ≡ (if leb (2 ^ 33 * 2 ^ 32) max_size_t then 2 ^ 33 * 2 ^ 32 else max_size_t)
calloc_request-exact_example = calloc_request-exact (2 ^ 33) (2 ^ 32) (omega arith) (omega arith)

fix_alignment-IsFit_example :
    Returns (λ a s'. IsFit 100 a × (s' ≡ only_top)) (fix_alignment 100 only_top)
fix_alignment-IsFit_example = fix_alignment-IsFit 100 only_top (omega arith)

aligned_pos-fits_example :
    ((aligned_pos (2 ^ 6) (8208 + 16) 8208 + 16) % 2 ^ 6 ≡ 0)
    × (8208 + min_chunk_size ≤ aligned_pos (2 ^ 6) (8208 + 16) 8208)
    × (aligned_pos (2 ^ 6) (8208 + 16) 8208 < 8208 + 2 ^ 6 + min_chunk_size)
aligned_pos-fits_example = aligned_pos-fits 6 8208 (omega arith) (omega arith)
