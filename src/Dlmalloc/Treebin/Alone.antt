-- ===== src/Dlmalloc/Treebin/Alone.antt =====
-- A large chunk that is alone in its treebin.
use mosalloc_rs.Base.{
  ℕ, ◌+◌, ◌^◌, ◌≤◌, ◌<◌, ◌≡◌, ◌≢◌, refl, ap, ◌∙◌, ◌⊎◌, arith, true, false, ne→==, eq→==,
}
use mosalloc_rs.Dlmalloc.State.{
  State, ◌>>◌, fd_of, bk_of, child_of, parent_of, index_of, treebin_at,
}
use mosalloc_rs.Dlmalloc.State.Returns.{Returns, returns, bind, mono}
use mosalloc_rs.Dlmalloc.Index.{map_is_marked, mark_map, clear_map, compute_tree_index}
use mosalloc_rs.Dlmalloc.Index.Marks.{mark_map-marked}
use mosalloc_rs.Dlmalloc.Treebin.{insert_large_chunk, unlink_large_chunk}

-- The tree of bin `i` is the node `x`, without children and without chunks of the same size.
pub record IsAlone (s : State) (x i : ℕ) : Type 0 where
  pub marked : map_is_marked s.treemap i ≡ true
  pub root : s.mem (treebin_at s i) ≡ x
  pub parent : s.mem (parent_of x) ≡ treebin_at s i
  pub left : s.mem (child_of x 0) ≡ 0
  pub right : s.mem (child_of x 1) ≡ 0
  pub fd : s.mem (fd_of x) ≡ x
  pub bk : s.mem (bk_of x) ≡ x
  pub index : s.mem (index_of x) ≡ i

-- Between `s` and `s'` the treemap may differ, and the words of the bin and of the chunk's fields.
pub record EditsTree (s : State) (x i : ℕ) (s' : State) : Type 0 where
  pub rest : s' ≡ record s { treemap = s'.treemap; mem = s'.mem }
  pub words : (a : ℕ) → (a < fd_of x) ⊎ (index_of x < a) → a ≢ treebin_at s i → s'.mem a ≡ s.mem a

-- The fields of the chunk do not overlap the bin.
abbrev pub OffBin : State → ℕ → ℕ → Type 0
OffBin s x i = (treebin_at s i + 8 ≤ x) ⊎ (x + 64 ≤ treebin_at s i)

-- Clearing a new mark gives the map from before.
clear-mark : (m i : ℕ) → map_is_marked m i ≡ false → clear_map (mark_map m i) i ≡ m
clear-mark m i free =
    let marked : map_is_marked (mark_map m i) i ≡ true =
      rw (mark_map-marked m i i, eq→== i i refl) refl in
    let added : mark_map m i ≡ m + 2 ^ i = rw free refl in rw marked (rw added (omega arith))

-- A chunk inserted into a bin that is not marked is alone in it.
pub insert_large_chunk-IsAlone :
    (s : State) (x n : ℕ)
    → map_is_marked s.treemap (compute_tree_index n) ≡ false
    → OffBin s x (compute_tree_index n)
    → Returns
        (λ _ s'.
          IsAlone s' x (compute_tree_index n)
          × EditsTree s x (compute_tree_index n) s'
          × (clear_map s'.treemap (compute_tree_index n) ≡ s.treemap))
        (insert_large_chunk x n s)
unfolding insert_large_chunk
insert_large_chunk-IsAlone s x n free off =
    let i = compute_tree_index n in
    let marked : map_is_marked (mark_map s.treemap i) i ≡ true =
      rw (mark_map-marked s.treemap i i, eq→== i i refl) refl in
    rw free (
      returns (
        record {
          marked = marked;
          root = ground arith;
          parent = ground arith;
          left = ground arith;
          right = ground arith;
          fd = ground arith;
          bk = ground arith;
          index = ground arith;
        },
        record { rest = refl; words = λ a k ne. ground arith },
        clear-mark s.treemap i free,
      ))

-- Unlinking the only chunk of a bin clears the bin and its mark.
pub unlink_large_chunk-alone :
    (s : State) (x i : ℕ)
    → IsAlone s x i
    → Returns
        (λ _ s'.
          (s'.treemap ≡ clear_map s.treemap i) × (s'.mem (treebin_at s i) ≡ 0) × EditsTree s x i s')
        (unlink_large_chunk x s)
unfolding unlink_large_chunk
unlink_large_chunk-alone s x i h =
    rw
      (
        h.parent,
        ne→== (treebin_at s i) 0 (omega arith),
        h.bk,
        eq→== x x refl,
        h.right,
        h.left,
        h.index,
        h.root,
        eq→== x x refl,
      )
      (returns (refl, ground arith, record { rest = refl; words = λ a k ne. ground arith }))

EditsTree-both :
    (s s1 s2 : State) (x i : ℕ) → EditsTree s x i s1 → EditsTree s1 x i s2 → EditsTree s x i s2
EditsTree-both s s1 s2 x i a b =
    let self : s1.self ≡ s.self = ap (λ (r : State). r.self) a.rest in
    record {
      rest = b.rest ∙ ap {A = State} (λ r. record r { treemap = s2.treemap; mem = s2.mem }) a.rest;
      words = λ c k ne. b.words c k (rw self ne) ∙ a.words c k ne;
    }

-- Inserting a large chunk, whose fields do not overlap its treebin, into a treebin that is not
-- marked and unlinking it again returns with the treemap from before and an empty bin; words other
-- than the bin and those within the chunk's fields, and all other fields of the state, are
-- unchanged.
pub unlink_large_chunk-insert_large_chunk :
    (s : State) (x n : ℕ)
    → map_is_marked s.treemap (compute_tree_index n) ≡ false
    → OffBin s x (compute_tree_index n)
    → Returns
        (λ _ s'.
          (s'.treemap ≡ s.treemap)
          × (s'.mem (treebin_at s (compute_tree_index n)) ≡ 0)
          × EditsTree s x (compute_tree_index n) s')
        ((insert_large_chunk x n >> unlink_large_chunk x) s)
unlink_large_chunk-insert_large_chunk s x n free off =
    let i = compute_tree_index n in
    bind (insert_large_chunk-IsAlone s x n free off) (λ _ s1 q.
      let self : s1.self ≡ s.self = ap (λ (r : State). r.self) q.1.rest in
      mono (unlink_large_chunk-alone s1 x i q.0)
        (λ _ s2 k. (k.0 ∙ q.2, rw (← self) k.1, EditsTree-both s s1 s2 x i q.1 k.2)))
