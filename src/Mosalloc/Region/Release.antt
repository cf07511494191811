-- ===== src/Mosalloc/Region/Release.antt =====
-- free_range in a well-formed region.
use mosalloc_rs.Base.{
  ℕ, ◌+◌, ◌^◌, ◌≤◌, ◌<◌, ◌≡◌, refl, sym, ap, ◌∙◌, arith, false, if◌then◌else◌, ◌==◌, add64,
}
use mosalloc_rs.Mosalloc.System.{Sys}
use mosalloc_rs.Mosalloc.System.Ends.{Ends, ends, mono}
use mosalloc_rs.Mosalloc.Misc.Aligned.{page_round, align_up-page}
use mosalloc_rs.Mosalloc.FreeMap.Sorted.{IsFreeMap, is_free}
use mosalloc_rs.Mosalloc.FreeMap.Add.{add_range_to_freemap-Adds}
use mosalloc_rs.Mosalloc.FreeMap.Canonical.{not_free-Apart, IsFreeMap-unique, SameFree}
use mosalloc_rs.Mosalloc.Region.{Region, free_range, last_start}
use mosalloc_rs.Mosalloc.Region.Invariant.{
  IsRegion, Allocates, Frees, Allocates-IsRegion, Frees-IsRegion,
}

-- A range of the region without free addresses is free afterwards, and the region well-formed.
pub free_range-Frees :
    (r : Region) (p len : ℕ) (s : Sys)
    → IsRegion r
    → 0 < len
    → len + 4096 ≤ 2 ^ 64
    → r.start ≤ p
    → p + page_round len ≤ r.max
    → ((a : ℕ) → p ≤ a → a < p + page_round len → is_free a r.free_map ≡ false)
    → Ends (λ r' s'. (s' ≡ s) × Frees r p (page_round len) r' × IsRegion r') (free_range r p len s)
unfolding free_range
free_range-Frees r p len s w pos room low high used =
    let n = page_round len in
    let grows : 0 < n = ground arith in
    let apart = not_free-Apart r.start r.max p (p + n) r.free_map w.map (omega arith) used in
    let (ys, done, adds) =
      add_range_to_freemap-Adds r.start r.max p n r.free_map s w.map low grows high
        (omega (arith, w.bound)) apart in
    let end : add64 p n ≡ p + n = omega (arith, w.bound) in
    let r' = record r {
      free_map = ys;
      end = if r.end == p + n then last_start ys r.start else r.end;
    } in
    let frees : Frees r p n r' = record { given = adds; rest = refl } in
    rw (align_up-page len s room, done, end)
      (ends (refl, frees, Frees-IsRegion r p n r' w grows (low, high) frees))

-- In a well-formed region, for a length above 0 that rounds up to pages within the address space:
-- when those pages at `p`, which were free, are taken, free_range of them returns without a call
-- of libc, and the region is the one from before in all but its end, and well-formed.
pub free_range-Allocates :
    (r r1 : Region) (p len : ℕ) (s : Sys)
    → IsRegion r
    → 0 < len
    → len + 4096 ≤ 2 ^ 64
    → Allocates r p (page_round len) r1
    → Ends
        (λ r2 s'. (s' ≡ s) × (r2 ≡ record r { end = r2.end }) × IsRegion r2)
        (free_range r1 p len s)
free_range-Allocates r r1 p len s w pos room c =
    let n = page_round len in
    let grows : 0 < n = ground arith in
    let start = ap {A = Region} (λ x. x.start) c.rest in
    let max = ap {A = Region} (λ x. x.max) c.rest in
    let w1 = Allocates-IsRegion r p n r1 w grows c in
    mono
      (free_range-Frees r1 p len s w1 pos room (omega (arith, start, c.inside))
        (omega (arith, max, c.inside)) (λ a l h. let now = c.taken.now a in ground arith))
      (λ r2 s' q.
        let f = q.1 in
        let same : SameFree r2.free_map r.free_map =
          λ a. ground (arith, f.given.now a, c.taken.now a, c.taken.was a) in
        let well : IsFreeMap r.start r.max r2.free_map = rw (start, max) at f.given.well in
        let map = IsFreeMap-unique r.start r.max r2.free_map r.free_map well w.map same in
        let e = if r1.end == p + n then last_start r2.free_map r1.start else r1.end in
        let end : r2.end ≡ e = ap {A = Region} (λ x. x.end) f.rest in
        (
          q.0,
          f.rest
              ∙ ap {A = Region} (λ z. record z { free_map = r2.free_map; end = e }) c.rest
              ∙ ap (λ z. record r { free_map = z; end = e }) map
              ∙ ap (λ z. record r { end = z }) (sym end),
          q.2,
        ))
