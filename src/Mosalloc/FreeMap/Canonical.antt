-- ===== src/Mosalloc/FreeMap/Canonical.antt =====
-- A well-formed free map is determined by its free addresses, so giving back what was taken
-- restores it.
use mosalloc_rs.Base.{
  ℕ, ◌+◌, ◌^◌, ◌≤◌, ◌<◌, ◌≡◌, refl, sym, ap, ◌∙◌, arith, List, [], ◌∷◌, true, false,
}
use mosalloc_rs.Mosalloc.System.{Sys, ok}
use mosalloc_rs.Mosalloc.FreeMap.{Range, add_range_to_freemap}
use mosalloc_rs.Mosalloc.FreeMap.Sorted.{IsFreeMap, is_free, is_free-below}
use mosalloc_rs.Mosalloc.FreeMap.Delete.{Deletes}
use mosalloc_rs.Mosalloc.FreeMap.Add.{Apart, add_range_to_freemap-Adds}

-- The lists hold the same addresses.
abbrev pub SameFree : List Range → List Range → Type 0
SameFree xs ys = (a : ℕ) → is_free a xs ≡ is_free a ys

module _ (lo hi : ℕ) (x : Range) (xs : List Range) (m : IsFreeMap lo hi (x ∷ xs)) where
  starts_free : is_free x.start (x ∷ xs) ≡ true
  starts_free = ground (arith, m.1)

  gap_behind : is_free x.end (x ∷ xs) ≡ false
  gap_behind = ground (arith, m.1, is_free-below x.end (x.end + 1) hi xs m.3)

  nothing_below : (a : ℕ) → is_free a (x ∷ xs) ≡ true → x.start ≤ a
  nothing_below a h = ground (arith, m.1, is_free-below a (x.end + 1) hi xs m.3)

module _ (lo hi : ℕ) (x y : Range) (xs ys : List Range) (m : IsFreeMap lo hi (x ∷ xs))
    (n : IsFreeMap lo hi (y ∷ ys)) (same : SameFree (x ∷ xs) (y ∷ ys)) where
  start_le : y.start ≤ x.start
  start_le = nothing_below lo hi y ys n x.start (sym (same x.start) ∙ starts_free lo hi x xs m)

  end_le : x.start ≡ y.start → y.end ≤ x.end
  end_le e = let gap = sym (same x.end) ∙ gap_behind lo hi x xs m in ground (arith, m.1)

tails_same :
    (lo hi : ℕ) (x : Range) (xs ys : List Range)
    → IsFreeMap lo hi (x ∷ xs)
    → IsFreeMap lo hi (x ∷ ys)
    → SameFree (x ∷ xs) (x ∷ ys)
    → SameFree xs ys
tails_same lo hi x xs ys m n same a =
    ground
      (arith, same a, is_free-below a (x.end + 1) hi xs m.3, is_free-below a (x.end + 1) hi ys n.3)

pub IsFreeMap-unique :
    (lo hi : ℕ) (xs ys : List Range)
    → IsFreeMap lo hi xs
    → IsFreeMap lo hi ys
    → SameFree xs ys
    → xs ≡ ys
IsFreeMap-unique lo hi [] [] m n same = refl
IsFreeMap-unique lo hi [] (y ∷ ys) m n same =
    let e = starts_free lo hi y ys n in let f = same y.start in cc
IsFreeMap-unique lo hi (x ∷ xs) [] m n same =
    let e = starts_free lo hi x xs m in let f = same x.start in cc
IsFreeMap-unique lo hi (x ∷ xs) (y ∷ ys) m n same =
    let back = λ (a : ℕ). sym (same a) in
    let starts : x.start ≡ y.start =
      omega (arith, start_le lo hi x y xs ys m n same, start_le lo hi y x ys xs n m back) in
    let ends : x.end ≡ y.end = omega (
      arith,
      end_le lo hi x y xs ys m n same starts,
      end_le lo hi y x ys xs n m back (sym starts),
    ) in
    let heads : y ≡ x = cc in
    let n' = rw heads at n in
    let same' = rw heads at same in
    let tails =
      IsFreeMap-unique (x.end + 1) hi xs ys m.3 n'.3 (tails_same lo hi x xs ys m n' same') in
    ap (λ zs. x ∷ zs) tails ∙ ap (λ z. z ∷ ys) (sym heads)

-- A range without free addresses is apart from the free ones.
pub not_free-Apart :
    (lo hi start end : ℕ) (xs : List Range)
    → IsFreeMap lo hi xs
    → start < end
    → ((a : ℕ) → start ≤ a → a < end → is_free a xs ≡ false)
    → Apart start end xs
not_free-Apart lo hi start end [] m wide h = tt
not_free-Apart lo hi start end (x ∷ xs) m wide h = (
  ground (arith, h start, h x.start, m.1),
  not_free-Apart (x.end + 1) hi start end xs m.3 wide (λ a l k. ground (arith, h a l k)),
)

-- In a well-formed free map (sorted, no range empty, no two touching) inside the 64-bit addresses:
-- when `len` addresses from `r` on, which were free, are taken from it, adding that range to the
-- result gives the free map again, range by range.
pub add_range_to_freemap-Deletes :
    (lo hi r len : ℕ) (xs ys : List Range) (s : Sys)
    → IsFreeMap lo hi xs
    → lo ≤ r
    → 0 < len
    → r + len ≤ hi
    → hi < 2 ^ 64
    → Deletes lo hi xs r len ys
    → add_range_to_freemap r len ys s ≡ ok xs s
add_range_to_freemap-Deletes lo hi r len xs ys s m low pos high top d =
    let apart =
      not_free-Apart lo hi r (r + len) ys d.well (omega arith)
        (λ a l k. let now = d.now a in ground arith) in
    let (zs, done, adds) =
      add_range_to_freemap-Adds lo hi r len ys s d.well low pos high top apart in
    let same : SameFree zs xs = λ a. ground (arith, adds.now a, d.now a, d.was a) in
    done ∙ ap (λ z. ok z s) (IsFreeMap-unique lo hi zs xs adds.well m same)
