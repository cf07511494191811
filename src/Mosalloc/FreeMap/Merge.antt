-- ===== src/Mosalloc/FreeMap/Merge.antt =====
-- The steps of add_range_to_freemap, and what they make of the free map.
use mosalloc_rs.Base.{
  ℕ, suc, ◌+◌, ◌-◌, ◌≤◌, ◌<◌, ◌≡◌, ◌≢◌, refl, arith, List, [], ◌∷◌, ◌++◌, true, false, ◌&&◌, ◌||◌,
  leb, ltb, length, get_elem?-append, set-append, get_elem?-append_next, set-append_next,
  remove-append_next, length-append, ne→==, eq→==, lt→ltb, le→ltb,
}
use mosalloc_rs.Mosalloc.System.{Sys, ok}
use mosalloc_rs.Mosalloc.FreeMap.{Range, range_contains, merge_left, merge_right, merge_both}
use mosalloc_rs.Mosalloc.FreeMap.Sorted.{
  IsFreeMap, is_free, floor, append-IsFreeMap, is_free-append,
}

-- The free map `ys` is `xs` with the addresses from `start` up to `end`.
pub record Adds (lo hi : ℕ) (xs : List Range) (start end : ℕ) (ys : List Range) : Type 0 where
  pub well : IsFreeMap lo hi ys
  pub now : (a : ℕ) → is_free a ys ≡ (is_free a xs || (leb start a && ltb a end))

-- New ranges in place of old ones that they are made of.
pub exchange-Adds :
    (lo hi start end : ℕ) (init old middle rest : List Range)
    → IsFreeMap lo hi init
    → IsFreeMap (floor lo init) hi (middle ++ rest)
    → ((a : ℕ) → is_free a middle ≡ (is_free a old || (leb start a && ltb a end)))
    → Adds lo hi (init ++ (old ++ rest)) start end (init ++ (middle ++ rest))
exchange-Adds lo hi start end init old middle rest mi mr union = record {
  well = append-IsFreeMap lo hi init (middle ++ rest) mi mr;
  now = λ a. ground (
    arith,
    is_free-append a init (middle ++ rest),
    is_free-append a middle rest,
    is_free-append a init (old ++ rest),
    is_free-append a old rest,
    union a,
  );
}

pub replace-Adds :
    (lo hi start end : ℕ) (init old rest : List Range) (n : Range)
    → IsFreeMap lo hi init
    → floor lo init ≤ n.start
    → n.start < n.end
    → n.end ≤ hi
    → IsFreeMap (n.end + 1) hi rest
    → ((a : ℕ) → range_contains n a ≡ (is_free a old || (leb start a && ltb a end)))
    → Adds lo hi (init ++ (old ++ rest)) start end (init ++ n ∷ rest)
replace-Adds lo hi start end init old rest n mi low wide high mr union =
    exchange-Adds lo hi start end init old (n ∷ []) rest mi (low, wide, high, mr)
      (λ a. ground (arith, union a))

module _ (start end : ℕ) (init : List Range) (l : Range) (behind : List Range) (s : Sys) where
  pub left_touch :
      l.end ≡ start
      → merge_left start end (suc (length init)) (init ++ l ∷ behind) s
        ≡ ok (init ++ record l { end = end } ∷ behind, true) s
  left_touch e =
      let i : suc (length init) - 1 ≡ length init = omega arith in
      rw
        (
          lt→ltb 0 (suc (length init)) (omega arith),
          i,
          get_elem?-append init l behind,
          eq→== l.end start e,
          set-append init l behind (record l { end = end }),
        )
        refl

  pub left_apart :
      l.end ≢ start
      → merge_left start end (suc (length init)) (init ++ l ∷ behind) s
        ≡ ok (init ++ l ∷ behind, false) s
  left_apart e =
      let i : suc (length init) - 1 ≡ length init = omega arith in
      rw
        (
          lt→ltb 0 (suc (length init)) (omega arith),
          i,
          get_elem?-append init l behind,
          ne→== l.end start e,
        )
        refl

module _ (start end : ℕ) (init : List Range) (l : Range) (s : Sys) where
  pub right_touch :
      (y : Range) (rest : List Range)
      → y.start ≡ end
      → merge_right start end (suc (length init)) (init ++ l ∷ y ∷ rest) s
        ≡ ok (init ++ l ∷ record y { start = start } ∷ rest, true) s
  right_touch y rest e =
      let size = length-append init (l ∷ y ∷ rest) in
      rw
        (
          lt→ltb (suc (length init)) (length (init ++ l ∷ y ∷ rest)) (omega (arith, size)),
          get_elem?-append_next init l y rest,
          eq→== y.start end e,
          set-append_next init l y rest (record y { start = start }),
        )
        refl

  pub right_apart :
      (y : Range) (rest : List Range)
      → y.start ≢ end
      → merge_right start end (suc (length init)) (init ++ l ∷ y ∷ rest) s
        ≡ ok (init ++ l ∷ y ∷ rest, false) s
  right_apart y rest e =
      let size = length-append init (l ∷ y ∷ rest) in
      rw
        (
          lt→ltb (suc (length init)) (length (init ++ l ∷ y ∷ rest)) (omega (arith, size)),
          get_elem?-append_next init l y rest,
          ne→== y.start end e,
        )
        refl

  pub right_none :
      merge_right start end (suc (length init)) (init ++ l ∷ []) s ≡ ok (init ++ l ∷ [], false) s
  right_none =
      let size = length-append init (l ∷ []) in
      rw (le→ltb (suc (length init)) (length (init ++ l ∷ [])) (omega (arith, size))) refl

pub both_join :
    (init : List Range) (l y : Range) (rest : List Range) (s : Sys)
    → merge_both (suc (length init)) (init ++ l ∷ y ∷ rest) s
      ≡ ok (init ++ record l { end = y.end } ∷ rest) s
both_join init l y rest s =
    let i : suc (length init) - 1 ≡ length init = omega arith in
    rw
      (
        i,
        get_elem?-append init l (y ∷ rest),
        get_elem?-append_next init l y rest,
        set-append init l (y ∷ rest) (record l { end = y.end }),
        remove-append_next init (record l { end = y.end }) y rest,
      )
      refl
