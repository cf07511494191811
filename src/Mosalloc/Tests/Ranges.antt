-- ===== src/Mosalloc/Tests/Ranges.antt =====
-- The list of ranges 0-2,5.
use mosalloc_rs.Base.{ℕ, ◌≡◌, refl, arith, [], ◌∷◌, false, some}
use mosalloc_rs.Mosalloc.RangeList.{RangeInclusive, RangeListIter, iter, collect, contains}
use mosalloc_rs.Mosalloc.RangeList.Collect.{elem, collect-contains}

abbrev first : RangeInclusive
first = record { start = 0; end = 2; exhausted = false }

abbrev second : RangeInclusive
second = record { start = 5; end = 5; exhausted = false }

collect-contains_example :
    (it : RangeListIter) × (iter (first ∷ second ∷ []) ≡ some it)
    × (collect 10 it ≡ some (0 ∷ 1 ∷ 2 ∷ 5 ∷ []))
    × ((n : ℕ) → elem n (0 ∷ 1 ∷ 2 ∷ 5 ∷ []) ≡ contains (first ∷ second ∷ []) n)
collect-contains_example =
    collect-contains first (second ∷ []) 10 ((omega arith, refl), ((omega arith, refl), tt))
      (omega arith)
