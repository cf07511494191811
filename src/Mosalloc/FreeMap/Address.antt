-- ===== src/Mosalloc/FreeMap/Address.antt =====
-- Taking a range at a given address out of a free map.
use mosalloc_rs.Base.{
  ℕ, ◌+◌, ◌^◌, ◌≤◌, ◌<◌, ◌≡◌, refl, ◌⊎◌, inl, inr, arith, List, ◌∷◌, ◌++◌, false, length, All-mono,
  position-append, position, get_elem?-append, ne→==, some,
}
use mosalloc_rs.Mosalloc.System.{Sys}
use mosalloc_rs.Mosalloc.System.Ends.{Ends, ends}
use mosalloc_rs.Mosalloc.FreeMap.{Range, has_room, del_range_from_freemap}
use mosalloc_rs.Mosalloc.FreeMap.Sorted.{
  IsFreeMap, is_free, split-IsFreeMap, floor-ge, not_before, is_free-append, is_free-above,
  is_free-below,
}
use mosalloc_rs.Mosalloc.FreeMap.Delete.{
  Deletes, take_front, front-Deletes, middle_Deletes, take_middle,
}

-- The region lies above an address of its size, so that `x.len() - start` wraps around.
abbrev pub IsHigh : ℕ → ℕ → Type 0
IsHigh lo hi = (hi < lo + lo) × (hi < 2 ^ 64)

module _ (lo hi start len : ℕ) (before behind : List Range) (x : Range)
    (map : IsFreeMap lo hi (before ++ x ∷ behind)) (high : IsHigh lo hi) (low : x.start ≤ start)
    (inside : start < x.end) (pos : 0 < len) (bound : start + len ≤ 2 ^ 64) where
  -- The search finds the range that holds the address, whatever room it has.
  found_at : position (has_room start len) (before ++ x ∷ behind) ≡ some (length before)
  found_at =
      let w = split-IsFreeMap lo hi before (x ∷ behind) map in
      let low_end = floor-ge lo hi before w.0 in
      let apart = not_before start lo hi before w.0 (omega (arith, w.1.0)) in
      let nonzero = ne→== start 0 (omega (arith, w.1.0, high)) in
      position-append (has_room start len) before x behind
        (All-mono before (λ y h. ground (arith, nonzero)) apart)
        (ground (arith, high.0, high.1, w.1.0, w.1.1, w.1.2))

  pub del_range_from_freemap-at :
      (s : Sys)
      → ((start ≡ x.start) × (start + len ≤ x.end)) ⊎ ((x.start < start) × (start + len < x.end))
      → Ends
          (λ out s'.
            (s' ≡ s) × (out.1 ≡ start) × Deletes lo hi (before ++ x ∷ behind) start len out.0)
          (del_range_from_freemap start len (before ++ x ∷ behind) s)
  unfolding del_range_from_freemap
  del_range_from_freemap-at s room =
      let w = split-IsFreeMap lo hi before (x ∷ behind) map in
      let low_end = floor-ge lo hi before w.0 in
      let nonzero = ne→== start 0 (omega (arith, w.1.0, high)) in
      elim room [
        | inl e ↦
            let here =
              take_front lo hi before behind x map start len (ground (arith, e.0)) high.1
                (omega arith) in
            rw (found_at, get_elem?-append before x behind, here, nonzero)
              (ends (
                refl,
                refl,
                rw (e.0) (front-Deletes lo hi before behind x map len pos (omega arith)),
              ))
        | inr e ↦
            let here = take_middle lo hi before behind x map start len e.0 pos e.1 high.1 in
            rw (found_at, get_elem?-append before x behind, here, nonzero)
              (ends (refl, refl, middle_Deletes lo hi before behind x map start len pos e.0 e.1))
      ]

  -- In a well-formed free map of addresses from `lo` to `hi`, `hi` below 2 lo and 2 ^ 64: for an
  -- address in one of its ranges that ends less than `len` behind it, with `len` above 0 and the sum
  -- not above 2 ^ 64, del_range_from_freemap returns that address, although the end of the range,
  -- which lies less than `len` behind it, is not free.
  pub del_range_from_freemap-beyond :
      (s : Sys)
      → x.end < start + len
      → Ends
          (λ out s'.
            (out.1 ≡ start)
            × (start ≤ x.end)
            × (x.end < out.1 + len)
            × (is_free x.end (before ++ x ∷ behind) ≡ false))
          (del_range_from_freemap start len (before ++ x ∷ behind) s)
  unfolding del_range_from_freemap
  del_range_from_freemap-beyond s beyond =
      let w = split-IsFreeMap lo hi before (x ∷ behind) map in
      let low_end = floor-ge lo hi before w.0 in
      let nonzero = ne→== start 0 (omega (arith, w.1.0, high)) in
      let ahead = is_free-above x.end lo hi before w.0 (omega (arith, w.1)) (omega (arith, w.1)) in
      let after = is_free-below x.end (x.end + 1) hi behind w.1.3 (omega arith) in
      rw (found_at, get_elem?-append before x behind, nonzero)
        (ends (refl, omega arith, beyond, ground (arith, is_free-append x.end before (x ∷ behind))))
