-- ===== src/Dlmalloc/Tests/Bins.antt =====
-- The theorems on the bins at the small heap.
use mosalloc_rs.Base.{◌≡◌, refl, arith, inl, inr, [], ◌∷◌}
use mosalloc_rs.Dlmalloc.State.{head_of, ◌>>◌, smallbin_at, treebin_at}
use mosalloc_rs.Dlmalloc.State.Returns.{Returns}
use mosalloc_rs.Dlmalloc.Sizes.{request2size}
use mosalloc_rs.Dlmalloc.Index.{highest_bit, compute_tree_index}
use mosalloc_rs.Dlmalloc.Smallbin.{insert_small_chunk, unlink_small_chunk}
use mosalloc_rs.Dlmalloc.Smallbin.Bin.{IsBin, EditsBin, insert_small_chunk-cons}
use mosalloc_rs.Dlmalloc.Smallbin.Remove.{unlink_small_chunk-remove}
use mosalloc_rs.Dlmalloc.Treebin.{insert_large_chunk, unlink_large_chunk}
use mosalloc_rs.Dlmalloc.Treebin.Alone.{EditsTree, unlink_large_chunk-insert_large_chunk}
use mosalloc_rs.Dlmalloc.Malloc.{malloc_locked}
use mosalloc_rs.Dlmalloc.Malloc.Exact.{Pops, malloc_locked-Pops}
use mosalloc_rs.Dlmalloc.Free.{free_locked}
use mosalloc_rs.Dlmalloc.Free.Binned.{Between, malloc_locked-free_locked}
use mosalloc_rs.Dlmalloc.Tests.{in_use, only_top, binned}

binned-IsBin : IsBin binned 6 (16384 ∷ 32768 ∷ [])
binned-IsBin = record {
  marked = refl;
  chain = (refl, refl, (refl, refl, (refl, refl)));
  apart = (
    ((omega arith, omega arith, omega arith), ((omega arith, omega arith, omega arith), tt)),
    (((omega arith, omega arith, omega arith), tt), (tt, tt)),
  );
}

insert_small_chunk-cons_example :
    Returns
      (λ _ s'.
        IsBin s' 6 (49152 ∷ 16384 ∷ 32768 ∷ [])
        × EditsBin binned 6 (smallbin_at binned 6 ∷ 49152 ∷ 16384 ∷ 32768 ∷ []) s')
      (insert_small_chunk 49152 48 binned)
insert_small_chunk-cons_example =
    insert_small_chunk-cons binned 49152 48 (16384 ∷ 32768 ∷ []) binned-IsBin (refl, (refl, tt))
      (
        (omega arith, omega arith, omega arith),
        ((omega arith, omega arith, omega arith), ((omega arith, omega arith, omega arith), tt)),
      )

unlink_small_chunk-remove_example :
    Returns
      (λ _ s'. IsBin s' 6 (16384 ∷ []) × EditsBin binned 6 (smallbin_at binned 6 ∷ 16384 ∷ []) s')
      (unlink_small_chunk 32768 48 binned)
unlink_small_chunk-remove_example =
    unlink_small_chunk-remove binned 32768 48 (16384 ∷ []) [] binned-IsBin (refl, tt)

malloc_locked-Pops_example :
    Returns
      (λ mem s'. (mem ≡ 16400) × Pops binned 6 16384 (32768 ∷ []) s')
      (malloc_locked 40 binned)
unfolding request2size
malloc_locked-Pops_example =
    malloc_locked-Pops binned 40 6 16384 (32768 ∷ []) (omega arith) (inl refl) (record {
      positive = omega arith;
      room = omega arith;
      bin = binned-IsBin;
      checked = (refl, tt);
      clear = (inr (omega arith), (inr (omega arith), tt));
    })

index_4096 : compute_tree_index 4096 ≡ 8
unfolding compute_tree_index highest_bit
index_4096 = refl

unlink_large_chunk-insert_large_chunk_example :
    Returns
      (λ _ s'.
        (s'.treemap ≡ 0)
        × (s'.mem (treebin_at only_top (compute_tree_index 4096)) ≡ 0)
        × EditsTree only_top 16384 (compute_tree_index 4096) s')
      ((insert_large_chunk 16384 4096 >> unlink_large_chunk 16384) only_top)
unlink_large_chunk-insert_large_chunk_example =
    unlink_large_chunk-insert_large_chunk only_top 16384 4096 (rw index_4096 refl)
      (inr (rw index_4096 (omega arith)))

in_use-Between : Between in_use 16384 48 (32768 ∷ [])
in_use-Between = record {
  aligned = refl;
  minimal = omega arith;
  small = omega arith;
  room = omega arith;
  address = omega arith;
  head = refl;
  next = refl;
  bin = record {
    marked = refl;
    chain = (refl, refl, (refl, refl));
    apart = (((omega arith, omega arith, omega arith), tt), (tt, tt));
  };
  checked = (refl, tt);
  clear = (inr (omega arith), (inr (omega arith), tt));
}

size_40 : request2size 40 ≡ 48
unfolding request2size
size_40 = refl

malloc_locked-free_locked_example :
    Returns
      (λ mem s'.
        (mem ≡ 16400)
        × (s'.mem (head_of 16384) ≡ 51)
        × IsBin s' 6 (32768 ∷ [])
        × (s' ≡ record in_use { smallmap = s'.smallmap; mem = s'.mem }))
      ((free_locked 16384 >> malloc_locked 40) in_use)
malloc_locked-free_locked_example =
    malloc_locked-free_locked in_use 16384 48 40 (32768 ∷ []) in_use-Between (omega arith) size_40
