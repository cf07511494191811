-- ===== src/Mosalloc/Tests/Regions.antt =====
-- The theorems on regions, tried on the small ones.
use mosalloc_rs.Base.{◌+◌, ◌<◌, ◌≤◌, ◌≡◌, refl, arith, List, [], ◌∷◌, false}
use mosalloc_rs.Mosalloc.System.{ok}
use mosalloc_rs.Mosalloc.System.Ends.{Ends}
use mosalloc_rs.Mosalloc.Htlb.AllocType.{anon}
use mosalloc_rs.Mosalloc.FreeMap.{Range, del_range_from_freemap, add_range_to_freemap}
use mosalloc_rs.Mosalloc.FreeMap.Sorted.{is_free}
use mosalloc_rs.Mosalloc.FreeMap.Delete.{Deletes}
use mosalloc_rs.Mosalloc.FreeMap.Canonical.{add_range_to_freemap-Deletes}
use mosalloc_rs.Mosalloc.FreeMap.Address.{del_range_from_freemap-beyond}
use mosalloc_rs.Mosalloc.Region.{Region, alloc_range, free_range}
use mosalloc_rs.Mosalloc.Region.Invariant.{IsRegion, Allocates}
use mosalloc_rs.Mosalloc.Region.Allocate.{alloc_range-first_fit, Fits}
use mosalloc_rs.Mosalloc.Region.Release.{free_range-Allocates}
use mosalloc_rs.Mosalloc.Allocator.Heap.{range}
use mosalloc_rs.Mosalloc.Tests.{sys, kind_libc-Maps, small_region, small_region-IsRegion}

-- The pages from 0x201000 to 0x203000, cut out of the region.
abbrev cut : List Range
cut = range 0x200000 0x201000 ∷ range 0x203000 0x210000 ∷ []

cut-Deletes : Deletes 0x200000 0x210000 (range 0x200000 0x210000 ∷ []) 0x201000 0x2000 cut
cut-Deletes = record {
  well = (omega arith, omega arith, omega arith, (omega arith, omega arith, omega arith, tt));
  was = λ a l h. ground arith;
  now = λ a. ground arith;
}

add_range_to_freemap-Deletes_example :
    add_range_to_freemap 0x201000 0x2000 cut sys ≡ ok (range 0x200000 0x210000 ∷ []) sys
add_range_to_freemap-Deletes_example =
    add_range_to_freemap-Deletes 0x200000 0x210000 0x201000 0x2000 (range 0x200000 0x210000 ∷ [])
      cut sys (omega arith, omega arith, omega arith, tt) (omega arith) (omega arith) (omega arith)
      (omega arith) cut-Deletes

-- Four pages are asked for where the range has one.
del_range_from_freemap-beyond_example :
    Ends
      (λ out s'.
        (out.1 ≡ 0x200000)
        × (0x200000 ≤ 0x201000)
        × (0x201000 < out.1 + 0x4000)
        × (is_free 0x201000 cut ≡ false))
      (del_range_from_freemap 0x200000 0x4000 cut sys)
del_range_from_freemap-beyond_example =
    del_range_from_freemap-beyond 0x200000 0x210000 0x200000 0x4000 []
      (range 0x203000 0x210000 ∷ []) (range 0x200000 0x201000)
      (omega arith, omega arith, omega arith, (omega arith, omega arith, omega arith, tt))
      (omega arith, omega arith) (omega arith) (omega arith) (omega arith) (omega arith) sys
      (omega arith)

abbrev area : Region
area = small_region anon 0x200000 0x200000

area-IsRegion : IsRegion area
area-IsRegion =
    small_region-IsRegion anon 0x200000 0x200000 (omega arith) (omega arith) (omega arith)
      (omega arith)

alloc_range-first_fit_example :
    Ends
      (λ out s'. Fits area area-IsRegion 3 0x22 false sys kind_libc-Maps 0x2000 out.0 out.1 s')
      (alloc_range area 0 0x1234 3 0x22 false sys)
alloc_range-first_fit_example =
    alloc_range-first_fit area area-IsRegion 3 0x22 false sys kind_libc-Maps 0x1234 (omega arith)
      (omega arith) refl

-- The region without its first two pages.
abbrev used : Region
used = record area { free_map = range 0x202000 0x210000 ∷ []; end = 0x202000 }

used-Allocates : Allocates area 0x200000 0x2000 used
used-Allocates = record {
  taken = record {
    well = (omega arith, omega arith, omega arith, tt);
    was = λ a l h. ground arith;
    now = λ a. ground arith;
  };
  rest = refl;
  inside = (omega arith, omega arith);
}

free_range-Allocates_example :
    Ends
      (λ r2 s'. (s' ≡ sys) × (r2 ≡ record area { end = r2.end }) × IsRegion r2)
      (free_range used 0x200000 0x1234 sys)
free_range-Allocates_example =
    free_range-Allocates area used 0x200000 0x1234 sys area-IsRegion (omega arith) (omega arith)
      used-Allocates
