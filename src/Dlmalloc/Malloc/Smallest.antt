-- ===== src/Dlmalloc/Malloc/Smallest.antt =====
-- The search for the smallest chunk of a tree.
use mosalloc_rs.Base.{
  ℕ, zero, suc, ◌≤◌, ◌<◌, ◌≡◌, ◌≢◌, refl, ap, ◌⊎◌, inl, inr, arith, ltb, List, [], ◌∷◌, All, length,
  sub64, ne→==, eq→==, Bool-cases,
}
use mosalloc_rs.Dlmalloc.State.{State}
use mosalloc_rs.Dlmalloc.State.Returns.{Returns, returns, mono}
use mosalloc_rs.Dlmalloc.Chunk.{chunksize}
use mosalloc_rs.Dlmalloc.Treebin.{leftmost_child}
use mosalloc_rs.Dlmalloc.Malloc.{better, smallest_loop}

-- What a chunk leaves over, as the code computes it.
abbrev pub trem : State → ℕ → ℕ → ℕ
trem s nb t = sub64 (chunksize s t) nb

-- From `t` the leftmost children are the nodes `ts`, and the last of them has no child.
abbrev pub IsPath : State → ℕ → List ℕ → Type 0
IsPath s t [] = t ≡ 0
IsPath s t (x ∷ xs) = (t ≡ x) × (t ≢ 0) × IsPath s (leftmost_child s t) xs

abbrev pub Among : ℕ → List ℕ → Type 0
Among v [] = ⊥
Among v (x ∷ xs) = (v ≡ x) ⊎ Among v xs

-- `best` is the node of `ts` that leaves the least over, or still `first`, if none leaves less.
pub record IsBest (s : State) (nb : ℕ) (ts : List ℕ) (first best : ℕ × ℕ) : Type 0 where
  pub below : best.1 ≤ first.1
  pub least : All (λ x. best.1 ≤ trem s nb x) ts
  pub found : (best ≡ first) ⊎ (Among best.0 ts × (best.1 ≡ trem s nb best.0) × (best.1 < first.1))

-- A node that leaves less becomes the first one of the search behind it.
taken :
    (s : State) (nb t : ℕ) (ts : List ℕ) (v rsize : ℕ) (best : ℕ × ℕ)
    → trem s nb t < rsize
    → IsBest s nb ts (t, trem s nb t) best
    → IsBest s nb (t ∷ ts) (v, rsize) best
taken s nb t ts v rsize best less b = record {
  below = omega (arith, b.below);
  least = (b.below, b.least);
  found = elim b.found [
    | inl e ↦
        let node : best.0 ≡ t = ap (λ (p : ℕ × ℕ). p.0) e in
        let left : best.1 ≡ trem s nb t = ap (λ (p : ℕ × ℕ). p.1) e in
        inr (inl node, rw node left, omega (arith, left))
    | inr q ↦ inr (inr q.0, q.1, omega (arith, q.2))
  ];
}

passed :
    (s : State) (nb t : ℕ) (ts : List ℕ) (v rsize : ℕ) (best : ℕ × ℕ)
    → rsize ≤ trem s nb t
    → IsBest s nb ts (v, rsize) best
    → IsBest s nb (t ∷ ts) (v, rsize) best
passed s nb t ts v rsize best more b = record {
  below = b.below;
  least = (omega (arith, b.below), b.least);
  found = elim b.found [ inl e ↦ inl e | inr q ↦ inr (inr q.0, q.1, q.2) ];
}

IsBest-step :
    (s : State) (nb t : ℕ) (ts : List ℕ) (v rsize : ℕ) (best : ℕ × ℕ)
    → IsBest s nb ts (better s nb t (v, rsize)) best
    → IsBest s nb (t ∷ ts) (v, rsize) best
IsBest-step s nb t ts v rsize best b = elim (Bool-cases (ltb (trem s nb t) rsize)) [
  | inl less ↦ taken s nb t ts v rsize best (ground arith) (rw less at b)
  | inr more ↦ passed s nb t ts v rsize best (ground arith) (rw more at b)
]

-- If the leftmost children from a node on are the nodes of a list that is shorter than the fuel,
-- the search returns the node of the list that leaves the least over, or the candidate it began
-- with, if no node leaves less; the state is unchanged.
pub smallest_loop-IsBest :
    (fuel : ℕ) (s : State) (nb t : ℕ) (ts : List ℕ) (first : ℕ × ℕ)
    → IsPath s t ts
    → length ts < fuel
    → Returns (λ best s'. IsBest s nb ts first best × (s' ≡ s)) (smallest_loop fuel nb t first s)
unfolding smallest_loop
smallest_loop-IsBest zero s nb t ts first path enough = absurd (omega arith)
smallest_loop-IsBest (suc fuel) s nb t [] first path enough =
    rw (eq→== t 0 path)
      (returns (record { below = omega arith; least = tt; found = inl refl }, refl))
smallest_loop-IsBest (suc fuel) s nb t (x ∷ ts) (v, rsize) path enough = rw (ne→== t 0 path.1) (
    mono
      (smallest_loop-IsBest fuel s nb (leftmost_child s t) ts (better s nb t (v, rsize)) path.2
        (omega arith))
      (λ best s' q. (rw (← path.0) (IsBest-step s nb t ts v rsize best q.0), q.1)))
