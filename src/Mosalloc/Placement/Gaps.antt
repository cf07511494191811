-- ===== src/Mosalloc/Placement/Gaps.antt =====
-- Where the search of Allocator::new puts the regions.
use mosalloc_rs.Base.{
  ℕ, ◌+◌, ◌-◌, ◌^◌, ◌≤◌, ◌<◌, ◌≡◌, ◌≢◌, refl, inl, inr, arith, List, [], ◌∷◌, true, false, ◌&&◌,
  leb, ltb, add64, ne→==, lt→ltb, le→ltb, Bool-cases,
}
use mosalloc_rs.Mosalloc.System.{Sys, pure, libc_brk}
use mosalloc_rs.Mosalloc.System.Ends.{Ends, ends, bind}
use mosalloc_rs.Mosalloc.Misc.{align_up}
use mosalloc_rs.Mosalloc.Misc.Aligned.{IsPage, align_up-power, round_bounds}
use mosalloc_rs.Mosalloc.Htlb.AllocType.{brk, anon}
use mosalloc_rs.Mosalloc.Region.{Region, init, contains}
use mosalloc_rs.Mosalloc.Placement.{
  Mapping, Search, has_gap, place_file, place_anon, place_heap, search, is_brk,
}

align_up-IsPage :
    (n p : ℕ) (s : Sys)
    → IsPage p
    → n + 2 ^ 30 ≤ 2 ^ 64
    → Ends (λ m s'. (s' ≡ s) × (n ≤ m) × (m < n + 2 ^ 30 + 1)) (align_up n p s)
align_up-IsPage n p s page room =
    let k = page.power in
    let value : p ≡ 2 ^ k = page.value in
    let small = page.small in
    let low : 2 ^ k ≤ 2 ^ 30 = omega arith in
    let up = round_bounds k low n in
    rw (value, align_up-power k low n s (omega arith)) (ends (refl, up.0, omega arith))

-- The sizes of pages of the regions, and their lengths.
pub record CanPlace (q : Search) : Type 0 where
  pub heap : IsPage q.heap.max_pgsz
  pub anon_region : IsPage q.anon_region.max_pgsz
  pub file_region : IsPage q.file_region.max_pgsz

-- The three regions, from `p` on and below `low`.
pub record Placed (q q' : Search) (p low : ℕ) : Type 0 where
  pub anon_start : ℕ
  pub file_start : ℕ
  pub heap : q'.heap ≡ init q.heap p
  pub anon_region : q'.anon_region ≡ init q.anon_region anon_start
  pub file_region : q'.file_region ≡ init q.file_region file_start
  pub behind_heap : p + q.heap.len ≤ anon_start
  pub behind_anon : anon_start + q.anon_region.len ≤ file_start
  pub behind_file : file_start + q.file_region.len ≤ low

passes :
    (low : ℕ) (q : Search)
    → has_gap q.last q.upper q.anon_region low ≡ false
    → place_anon q low ≡ pure (q, false)
unfolding place_anon
passes low q h = rw h refl

gap_found :
    (last upper : ℕ) (r : Region) (low : ℕ)
    → upper ≤ last
    → last < low
    → last + r.len ≤ low
    → has_gap last upper r low ≡ true
gap_found last upper r low a b c = ground arith

place_heap-Placed :
    (q : Search) (low : ℕ) (s : Sys)
    → CanPlace q
    → q.upper ≤ q.last
    → (s.libc s.trace (libc_brk q.last) s.errno).value ≢ 2 ^ 32 - 1
    → q.last + q.heap.len + 2 ^ 30 + q.anon_region.len + 2 ^ 30 + q.file_region.len < low
    → low + 2 ^ 31 ≤ 2 ^ 64
    → Ends (λ out s'. (out.1 ≡ true) × Placed q out.0 q.last low) (place_heap q low s)
unfolding place_heap place_anon place_file init
place_heap-Placed q low s w upper moved room bound =
    let max : add64 q.last q.heap.len ≡ q.last + q.heap.len = omega arith in
    rw
      (
        gap_found q.last q.upper q.heap low upper (omega arith) (omega arith),
        ne→== (s.libc s.trace (libc_brk q.last) s.errno).value (2 ^ 32 - 1) moved,
        max,
      )
      (bind
        (align_up-IsPage (q.last + q.heap.len) q.anon_region.max_pgsz _ w.anon_region (omega arith))
        (λ p1 s1 h.
          let max1 : add64 p1 q.anon_region.len ≡ p1 + q.anon_region.len =
            omega (arith, h.1, h.2) in
          rw
            (
              gap_found p1 p1 q.anon_region low (omega arith) (omega (arith, h.2))
                  (omega (arith, h.2)),
              max1,
            )
            (bind
              (align_up-IsPage (p1 + q.anon_region.len) q.file_region.max_pgsz s1 w.file_region
                (omega (arith, h.2)))
              (λ p2 s2 t.
                rw
                  (gap_found p2 p2 q.file_region low (omega arith) (omega (arith, h.2, t.2))
                    (omega (arith, h.2, t.2)))
                  (ends (
                    refl,
                    record {
                      anon_start = p1;
                      file_start = p2;
                      heap = rw max refl;
                      anon_region = rw max1 refl;
                      file_region = refl;
                      behind_heap = h.1;
                      behind_anon = t.1;
                      behind_file = omega (arith, h.2, t.2);
                    },
                  ))))))

-- For the heap as the next region, page sizes that are powers of two up to 1GB, and a libc whose
-- brk does not fail: if the first line ends at or above the break, and the gap between it and the
-- second line holds the lengths of the three regions and 1GB for each alignment, then the search
-- ends with the three regions initialized, one behind the other, all behind the first line and in
-- front of the second.
pub search-Placed :
    (m1 m2 : Mapping) (ms : List Mapping) (q : Search) (s : Sys)
    → CanPlace q
    → q.region ≡ brk
    → q.last < q.upper
    → q.upper ≤ m1.high
    → ((p : ℕ) → (s.libc s.trace (libc_brk p) s.errno).value ≢ 2 ^ 32 - 1)
    → m1.high + 2 ^ 30 + q.heap.len + 2 ^ 30 + q.anon_region.len + 2 ^ 30 + q.file_region.len
      < m2.low
    → m2.low + 2 ^ 31 ≤ 2 ^ 64
    → Ends (λ q' s'. (p : ℕ) × (m1.high ≤ p) × Placed q q' p m2.low) (search (m1 ∷ m2 ∷ ms) q s)
unfolding search
search-Placed m1 m2 ms q s w region first upper moved room bound =
    rw (lt→ltb q.last q.upper first, region)
      (bind (align_up-IsPage m1.high q.heap.max_pgsz s w.heap (omega arith)) (λ p s1 h.
        rw (le→ltb p q.upper (omega (arith, h.1)), h.0)
          (bind
            (place_heap-Placed (record q { last = p; region = brk }) m2.low s
              record { heap = w.heap; anon_region = w.anon_region; file_region = w.file_region }
              (omega (arith, h.1)) (moved p) (omega (arith, h.2)) bound)
            (λ out s2 t. rw (t.0) (
              ends (
                p,
                h.1,
                record {
                  anon_start = t.1.anon_start;
                  file_start = t.1.file_start;
                  heap = t.1.heap;
                  anon_region = t.1.anon_region;
                  file_region = t.1.file_region;
                  behind_heap = t.1.behind_heap;
                  behind_anon = t.1.behind_anon;
                  behind_file = t.1.behind_file;
                },
              ))))))

-- A gap for the anonymous region is taken, whether the one behind it is found or not.
place_anon_taken :
    (q : Search) (low : ℕ) (s : Sys)
    → CanPlace q
    → q.upper ≤ q.last
    → q.last < low
    → q.last + q.anon_region.len ≤ low
    → low + 2 ^ 31 ≤ 2 ^ 64
    → Ends
        (λ out s'. (out.0.anon_region ≡ init q.anon_region q.last) × (is_brk out.0.region ≡ false))
        (place_anon q low s)
unfolding place_anon place_file init
place_anon_taken q low s w upper below far bound =
    let max : add64 q.last q.anon_region.len ≡ q.last + q.anon_region.len = omega arith in
    rw (gap_found q.last q.upper q.anon_region low upper below far, max)
      (bind
        (align_up-IsPage (q.last + q.anon_region.len) q.file_region.max_pgsz s w.file_region
          (omega arith))
        (λ p s1 h. elim (Bool-cases (has_gap p p q.file_region low)) [
          | inl e ↦ rw e (ends (refl, refl))
          | inr e ↦ rw e (ends (refl, refl))
        ]))

-- For the anonymous region as the next one, page sizes that are powers of two up to 1GB, `last` at
-- or above `upper`: if the region does not fit in front of the next line, which begins at or
-- behind `last` and before the end that the region would have, but fits in front of the line after
-- it, and neither is the stack, then the search of these two lines ends with an anonymous region
-- that contains the beginning of the first.
pub search-contains :
    (m m' : Mapping) (q : Search) (s : Sys)
    → CanPlace q
    → q.upper ≤ q.last
    → q.last ≤ m.low
    → m.low < q.last + q.anon_region.len
    → m.stack ≡ false
    → m'.stack ≡ false
    → q.last + q.anon_region.len ≤ m'.low
    → q.last < m'.low
    → m'.low + 2 ^ 31 ≤ 2 ^ 64
    → Ends
        (λ q' s'. contains q'.anon_region m.low ≡ true)
        (search (m ∷ m' ∷ []) (record q { region = anon }) s)
unfolding search contains init
search-contains m m' q s w upper low small stack stack' far below bound =
    let none : has_gap q.last q.upper q.anon_region m.low ≡ false = ground arith in
    let max : add64 q.last q.anon_region.len ≡ q.last + q.anon_region.len = omega arith in
    rw
      (
        le→ltb q.last q.upper upper,
        passes m.low (record q { region = anon }) none,
        stack,
        stack',
        le→ltb q.last q.upper upper,
      )
      (bind
        (place_anon_taken (record q { region = anon }) m'.low s
          record { heap = w.heap; anon_region = w.anon_region; file_region = w.file_region } upper
          below far bound)
        (λ out s2 t.
          let here : (leb out.0.anon_region.start m.low && ltb m.low out.0.anon_region.max) ≡ true =
            rw (t.0, max) (ground arith) in
          elim (Bool-cases out.1) [ inl e ↦ rw e (ends here) | inr e ↦ rw (e, t.1) (ends here) ]))
