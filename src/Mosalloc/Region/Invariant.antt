-- ===== src/Mosalloc/Region/Invariant.antt =====
-- When a region is well-formed, and what an allocation or a release does to it.
use mosalloc_rs.Base.{
  sym, ℕ, ◌+◌, ◌-◌, ◌^◌, ◌≤◌, ◌<◌, ◌≡◌, refl, ap, ◌∙◌, arith, List, [], ◌∷◌, Bool, true, false,
  if◌then◌else◌, ltb, ◌==◌, Bool-cases, ==→eq, inl, inr,
}
use mosalloc_rs.Mosalloc.FreeMap.{Range}
use mosalloc_rs.Mosalloc.FreeMap.Sorted.{IsFreeMap, is_free}
use mosalloc_rs.Mosalloc.FreeMap.Delete.{Deletes}
use mosalloc_rs.Mosalloc.FreeMap.Merge.{Adds}
use mosalloc_rs.Mosalloc.System.{Sys, ok}
use mosalloc_rs.Mosalloc.Region.{Region, last_start, lock}
use mosalloc_rs.Mosalloc.Region.Pages.{HasPages}

-- The free map is well-formed inside of the region, everything from `end` on is free, the sizes of
-- pages are powers of two up to 1GB, and a page behind the region does not wrap around.
pub record IsRegion (r : Region) : Type 0 where
  pub map : IsFreeMap r.start r.max r.free_map
  pub base : 0 < r.start
  pub bound : r.max + 2 ^ 30 ≤ 2 ^ 64
  pub low : r.start ≤ r.end
  pub top : r.end ≤ r.max
  pub above : (a : ℕ) → r.end ≤ a → a < r.max → is_free a r.free_map ≡ true
  pub pages : HasPages r

-- `len` bytes at `p`, which were free, are taken.
pub record Allocates (r : Region) (p len : ℕ) (r' : Region) : Type 0 where
  pub taken : Deletes r.start r.max r.free_map p len r'.free_map
  pub rest :
      r' ≡ record r { free_map = r'.free_map; end = if ltb r.end (p + len) then p + len else r.end }
  pub inside : (r.start ≤ p) × (p + len ≤ r.max)

-- `len` bytes at `p` are free again.
pub record Frees (r : Region) (p len : ℕ) (r' : Region) : Type 0 where
  pub given : Adds r.start r.max r.free_map p (p + len) r'.free_map
  pub rest : r' ≡ record r {
    free_map = r'.free_map;
    end = if r.end == p + len then last_start r'.free_map r.start else r.end;
  }

module _ (r : Region) (p len : ℕ) (r' : Region) (w : IsRegion r) (pos : 0 < len) where
  pub Allocates-IsRegion : Allocates r p len r' → IsRegion r'
  Allocates-IsRegion c =
      let start = ap {A = Region} (λ x. x.start) c.rest in
      let max = ap {A = Region} (λ x. x.max) c.rest in
      let end = ap {A = Region} (λ x. x.end) c.rest in
      let pool = ap {A = Region} (λ x. x.pool) c.rest in
      record {
        map = rw (start, max) c.taken.well;
        base = omega (arith, start, w.base);
        bound = omega (arith, max, w.bound);
        low = ground (arith, start, end, w.low);
        top = ground (arith, max, end, w.top, c.inside.1);
        above = λ a l h.
            let now = c.taken.now a in
            let was = w.above a in
            let before : r.end ≤ a = ground (arith, end) in
            ground (arith, now, was before (omega (arith, max)), end);
        pages = rw pool w.pages;
      }

last_start_free :
    (lo hi : ℕ) (xs : List Range) (d : ℕ)
    → IsFreeMap lo hi xs
    → is_free (hi - 1) xs ≡ true
    → (lo ≤ last_start xs d)
      × (last_start xs d < hi)
      × ((a : ℕ) → last_start xs d ≤ a → a < hi → is_free a xs ≡ true)
last_start_free lo hi [] d m h = cc
last_start_free lo hi (x ∷ []) d m h =
    (m.0, ground (arith, m.1, m.2), λ a l k. ground (arith, m.1, m.2))
last_start_free lo hi (x ∷ y ∷ ys) d m h =
    let tail : is_free (hi - 1) (y ∷ ys) ≡ true = ground (arith, m.1, m.2, m.3.0, m.3.1, m.3.2) in
    let (a0, a1, a2) = last_start_free (x.end + 1) hi (y ∷ ys) x.start m.3 tail in
    (omega (arith, m.0, m.1), a1, λ a l k. let there = a2 a l k in ground (arith, there))

module _ (r : Region) (p len : ℕ) (r' : Region) (w : IsRegion r) (pos : 0 < len)
    (inside : (r.start ≤ p) × (p + len ≤ r.max)) (c : Frees r p len r') where
  -- The invariant for an end from which on everything is free.
  with_end :
      (e : ℕ)
      → r'.end ≡ e
      → r.start ≤ e
      → e ≤ r.max
      → ((a : ℕ) → e ≤ a → a < r.max → is_free a r'.free_map ≡ true)
      → IsRegion r'
  with_end e end low top free =
      let start = ap {A = Region} (λ x. x.start) c.rest in
      let max = ap {A = Region} (λ x. x.max) c.rest in
      let pool = ap {A = Region} (λ x. x.pool) c.rest in
      record {
        map = rw (start, max) c.given.well;
        base = omega (arith, start, w.base);
        bound = omega (arith, max, w.bound);
        low = omega (arith, start, end);
        top = omega (arith, max, end);
        above = λ a l h. free a (omega (arith, end)) (omega (arith, max));
        pages = rw pool w.pages;
      }

  last_free : r.end ≡ p + len → is_free (r.max - 1) r'.free_map ≡ true
  last_free e =
      ground (arith, c.given.now (r.max - 1), w.above (r.max - 1), w.top, inside.0, inside.1)

  pub Frees-IsRegion : IsRegion r'
  Frees-IsRegion =
      let end = ap {A = Region} (λ x. x.end) c.rest in
      elim (Bool-cases (r.end == p + len)) [
        | inl e ↦
            let (low, top, free) =
              last_start_free r.start r.max r'.free_map r.start c.given.well
                (last_free (==→eq r.end (p + len) e)) in
            with_end (last_start r'.free_map r.start) (end ∙ rw e refl) low (omega arith) free
        | inr e ↦
            with_end r.end (end ∙ rw e refl) w.low w.top
              (λ a l h. let was = w.above a l h in let now = c.given.now a in ground arith)
      ]

-- The lock does not matter to the description.
pub IsRegion-lock : (h : Region) (b : Bool) → IsRegion h → IsRegion (record h { lock = b })
IsRegion-lock h b w = record {
  map = w.map;
  base = w.base;
  bound = w.bound;
  low = w.low;
  top = w.top;
  above = w.above;
  pages = w.pages;
}

pub lock_free :
    (h : Region) → h.lock ≡ true → (s : Sys) → lock h s ≡ ok (record h { lock = false }) s
unfolding lock
lock_free h e s = rw e refl

pub Allocates-lock :
    (h : Region) (b c : Bool) (p len : ℕ) (h' : Region)
    → h.lock ≡ c
    → Allocates (record h { lock = b }) p len h'
    → Allocates h p len (record h' { lock = c })
Allocates-lock h b c p len h' e a = record {
  taken = a.taken;
  inside = a.inside;
  rest =
      ap {A = Region} (λ z. record z { lock = c }) a.rest
      ∙ ap
          (λ z. record h {
            free_map = h'.free_map;
            end = if ltb h.end (p + len) then p + len else h.end;
            lock = z;
          })
          (sym e);
}
