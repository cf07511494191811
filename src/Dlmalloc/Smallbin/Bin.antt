-- ===== src/Dlmalloc/Smallbin/Bin.antt =====
-- The smallbins as lists of chunks: what insert_small_chunk, unlink_small_chunk and
-- unlink_first_small_chunk do to the list of a bin, and what they leave alone.
use mosalloc_rs.Base.{ℕ, ◌≡◌, ◌≢◌, refl, List, [], ◌∷◌, arith, All, Bool, true, false, eq→==, ne→==}
use mosalloc_rs.Dlmalloc.State.{State, Mem, fd_of, bk_of, smallbin_at}
use mosalloc_rs.Dlmalloc.State.Returns.{Returns, returns}
use mosalloc_rs.Dlmalloc.Chunk.{ok_address}
use mosalloc_rs.Dlmalloc.Index.{small_index, map_is_marked, mark_map, clear_map}
use mosalloc_rs.Dlmalloc.Index.Marks.{mark_map-marked, clear_map-marked}
use mosalloc_rs.Dlmalloc.Smallbin.{insert_small_chunk, unlink_first_small_chunk}
use mosalloc_rs.Dlmalloc.Smallbin.Chain.{Apart, Distinct, IsChain}
use mosalloc_rs.Dlmalloc.Smallbin.Unlink.{IsChain-join, IsChain-push}

abbrev pub not_empty : List ℕ → Bool
not_empty [] = false
not_empty (x ∷ xs) = true

-- The links of an empty bin are not maintained: only its mark counts.
abbrev pub Linked : Mem → ℕ → List ℕ → Type 0
Linked m b [] = Unit
Linked m b (x ∷ xs) = IsChain m b (x ∷ xs) b

-- Bin `i` holds the chunks `xs`, from the most recent to the oldest.
pub record IsBin (s : State) (i : ℕ) (xs : List ℕ) : Type 0 where
  pub marked : map_is_marked s.smallmap i ≡ not_empty xs
  pub chain : Linked s.mem (smallbin_at s i) xs
  pub apart : Distinct (smallbin_at s i ∷ xs)

abbrev pub Checked : State → List ℕ → Type 0
Checked s xs = All (λ y. ok_address s y ≡ true) xs

-- Between `s` and `s'` only the mark of bin `i` and the links of the chunks `ys` may differ.
pub record EditsBin (s : State) (i : ℕ) (ys : List ℕ) (s' : State) : Type 0 where
  pub rest : s' ≡ record s { smallmap = s'.smallmap; mem = s'.mem }
  pub marks : (j : ℕ) → j ≢ i → map_is_marked s'.smallmap j ≡ map_is_marked s.smallmap j
  pub words : (a : ℕ) → All (λ y. (a ≢ fd_of y) × (a ≢ bk_of y)) ys → s'.mem a ≡ s.mem a

marks_of_mark : (m i j : ℕ) → j ≢ i → map_is_marked (mark_map m i) j ≡ map_is_marked m j
marks_of_mark m i j ne = rw (mark_map-marked m i j, ne→== j i ne) refl

pub marks_of_clear : (m i j : ℕ) → j ≢ i → map_is_marked (clear_map m i) j ≡ map_is_marked m j
marks_of_clear m i j ne = rw (clear_map-marked m i j, ne→== j i ne) refl

mark_self : (m i : ℕ) → map_is_marked (mark_map m i) i ≡ true
mark_self m i = rw (mark_map-marked m i i, eq→== i i refl) refl

pub clear_self : (m i : ℕ) → map_is_marked (clear_map m i) i ≡ false
clear_self m i = rw (clear_map-marked m i i, eq→== i i refl) refl

-- Inserting a chunk, whose links are apart from those of its smallbin and of the chunks the bin
-- holds, where these pass the address check, returns with the bin holding the chunk in front of
-- the others. Other marks, the words that are no links of the bin, and all other fields of the
-- state are unchanged.
pub insert_small_chunk-cons :
    (s : State) (p n : ℕ) (xs : List ℕ)
    → IsBin s (small_index n) xs
    → Checked s xs
    → All (Apart p) (smallbin_at s (small_index n) ∷ xs)
    → Returns
        (λ _ s'.
          IsBin s' (small_index n) (p ∷ xs)
          × EditsBin s (small_index n) (smallbin_at s (small_index n) ∷ p ∷ xs) s')
        (insert_small_chunk p n s)
unfolding insert_small_chunk
insert_small_chunk-cons s p n [] bin ok out = rw bin.marked (
    returns (
      record {
        marked = mark_self s.smallmap (small_index n);
        chain = (ground arith, ground arith, (ground arith, ground arith));
        apart = ((omega arith, tt), (tt, tt));
      },
      record {
        rest = refl;
        marks = marks_of_mark s.smallmap (small_index n);
        words = λ a h. ground arith;
      },
    ))
insert_small_chunk-cons s p n (x ∷ xs) bin ok out =
    let b = smallbin_at s (small_index n) in
    let first : s.mem (fd_of b) ≡ x = bin.chain.0 in
    rw (bin.marked, first, ok.0)
      (returns (
        record {
          marked = bin.marked;
          chain = IsChain-push s.mem p b b x xs refl bin.chain out bin.apart.0 bin.apart.1.0;
          apart = ((omega arith, bin.apart.0), (out.1, bin.apart.1));
        },
        record { rest = refl; marks = λ j ne. refl; words = λ a h. ground arith },
      ))

-- Unlinking the first chunk of the list that a smallbin holds, where the others pass the address
-- check, returns with the bin holding the others; it is unmarked if none is left. Other marks, the
-- words that are no links of the bin, and all other fields of the state are unchanged.
pub unlink_first_small_chunk-tail :
    (s : State) (i p : ℕ) (xs : List ℕ)
    → IsBin s i (p ∷ xs)
    → Checked s xs
    → Returns
        (λ _ s'. IsBin s' i xs × EditsBin s i (smallbin_at s i ∷ xs) s')
        (unlink_first_small_chunk (smallbin_at s i) p i s)
unfolding unlink_first_small_chunk
unlink_first_small_chunk-tail s i p [] bin ok =
    rw (bin.chain.2.0, eq→== (smallbin_at s i) (smallbin_at s i) refl)
      (returns (
        record { marked = clear_self s.smallmap i; chain = tt; apart = (tt, tt) },
        record { rest = refl; marks = marks_of_clear s.smallmap i; words = λ a h. refl },
      ))
unlink_first_small_chunk-tail s i p (y ∷ r) bin ok =
    let b = smallbin_at s i in
    let joined =
      IsChain-join s.mem p b b [] (y ∷ r) bin.chain bin.apart.0 bin.apart.0 bin.apart.1
        (omega arith) in
    rw (bin.chain.2.0, ne→== b y (omega arith), ok.0, bin.chain.2.1, eq→== p p refl)
      (returns (
        record { marked = bin.marked; chain = joined.2; apart = (bin.apart.0.1, bin.apart.1.1) },
        record { rest = refl; marks = λ j ne. refl; words = λ a h. ground arith },
      ))
