-- ===== src/Mosalloc/Placement/Start.antt =====
-- A region after Region::new and init.
use mosalloc_rs.Base.{ℕ, ◌+◌, ◌^◌, ◌≤◌, ◌<◌, ◌≡◌, refl, arith, [], true, add64}
use mosalloc_rs.Mosalloc.Htlb.{Pool, AllocType}
use mosalloc_rs.Mosalloc.Region.{Region, init}
use mosalloc_rs.Mosalloc.Region
use mosalloc_rs.Mosalloc.Region.Pages.{HasPages}
use mosalloc_rs.Mosalloc.Region.Invariant.{IsRegion}

-- As Region::new leaves it.
abbrev pub IsFresh : Region → Type 0
IsFresh r = (r.free_map ≡ []) × (r.lock ≡ true)

new-IsFresh : (p : Pool) (t : AllocType) (n : ℕ) → IsFresh (Region.new p t n)
unfolding Region.new
new-IsFresh p t n = (refl, refl)

-- A fresh region that is placed is well-formed.
pub init-IsRegion :
    (r : Region) (p : ℕ)
    → IsFresh r
    → HasPages r
    → 0 < p
    → 0 < r.len
    → p + r.len + 2 ^ 30 ≤ 2 ^ 64
    → IsRegion (init r p)
unfolding init
init-IsRegion r p fresh pages base some_len bound =
    let top : add64 p r.len ≡ p + r.len = omega arith in
    let map : r.free_map ≡ [] = fresh.0 in
    rw (top, map)
      record {
        map = (omega arith, omega arith, omega arith, tt);
        base = base;
        bound = bound;
        low = omega arith;
        top = omega arith;
        above = λ a l h. ground arith;
        pages = pages;
      }
