-- ===== src/Mosalloc/FreeMap/Add.antt =====
-- Giving a range back to a free map.
use mathlib.Core.List.{append-nil}
use mathlib.Core.Path.{subst}
use mosalloc_rs.Base.{
  ℕ, suc, ◌+◌, ◌^◌, ◌≤◌, ◌<◌, ◌≡◌, refl, sym, ap, ◌∙◌, ◌⊎◌, inl, inr, arith, List, [], ◌∷◌, ◌++◌,
  false, leb, add64, length, All, split-All, last-cases, position-cases, position,
  insert-append_next, length-append, ne→==, eq→==, lt→ltb, append_assoc,
}
use native.Mathlib.Decide.{ℕ_discrete}
use mosalloc_rs.Mosalloc.System.{Sys, ok}
use mosalloc_rs.Mosalloc.FreeMap.{Range, add_at, or_length, add_sorted, add_range_to_freemap}
use mosalloc_rs.Mosalloc.FreeMap.Sorted.{IsFreeMap, split-IsFreeMap}
use mosalloc_rs.Mosalloc.FreeMap.Merge.{
  Adds, exchange-Adds, replace-Adds, left_touch, left_apart, right_touch, right_apart, right_none,
  both_join,
}

-- The next range, if there is one, starts at `end` or above.
abbrev Starts : ℕ → List Range → Type 0
Starts end [] = Unit
Starts end (y ∷ rest) = end ≤ y.start

module _ (lo hi start end : ℕ) (s : Sys) (low : lo ≤ start) (wide : start < end)
    (high : end ≤ hi) where
  abbrev Added : ℕ → List Range → Type 0
  Added idx xs =
      (ys : List Range) × (add_at start end idx xs s ≡ ok ys s) × Adds lo hi xs start end ys

  abbrev new : Range
  new = record { start = start; end = end }

  -- Nothing stands in front.
  add_first : (behind : List Range) → IsFreeMap lo hi behind → Starts end behind → Added 0 behind
  add_first [] m h =
      (new ∷ [], refl, replace-Adds lo hi start end [] [] [] new tt low wide high tt (λ a. refl))
  add_first (y ∷ rest) m h = elim (ℕ_discrete y.start end) [
    | yes e ↦ (
      record y { start = start } ∷ rest,
      rw (lt→ltb 0 (suc (length rest)) (omega arith), eq→== y.start end e) refl,
      replace-Adds lo hi start end [] (y ∷ []) rest (record y { start = start }) tt low
          (omega arith) m.2 m.3 (λ a. ground arith),
    )
    | no e ↦ (
      new ∷ y ∷ rest,
      rw (lt→ltb 0 (suc (length rest)) (omega arith), ne→== y.start end e) refl,
      replace-Adds lo hi start end [] [] (y ∷ rest) new tt low wide high
          (omega arith, m.1, m.2, m.3) (λ a. refl),
    )
  ]

  -- The range `l` stands in front, and touches.
  add_touching :
      (init : List Range) (l : Range) (behind : List Range)
      → IsFreeMap lo hi (init ++ l ∷ behind)
      → l.end ≡ start
      → Starts end behind
      → Added (suc (length init)) (init ++ l ∷ behind)
  add_touching init l [] m e h =
      let w = split-IsFreeMap lo hi init (l ∷ []) m in
      (
        init ++ record l { end = end } ∷ [],
        rw
            (
              left_touch start end init l [] s e,
              right_none start end init (record l { end = end }) s,
            )
            refl,
        replace-Adds lo hi start end init (l ∷ []) [] (record l { end = end }) w.0 w.1.0
            (omega (arith, w.1.1)) high tt (λ a. ground (arith, w.1.1)),
      )
  add_touching init l (y ∷ rest) m e h =
      let w = split-IsFreeMap lo hi init (l ∷ y ∷ rest) m in
      let l' = record l { end = end } in
      elim (ℕ_discrete y.start end) [
        | yes f ↦ (
          init ++ record l { end = y.end } ∷ rest,
          rw
              (
                left_touch start end init l (y ∷ rest) s e,
                right_touch start end init l' s y rest f,
                both_join init l' (record y { start = start }) rest s,
              )
              refl,
          replace-Adds lo hi start end init (l ∷ y ∷ []) rest (record l { end = y.end }) w.0 w.1.0
              (omega (arith, w.1.1, w.1.3)) w.1.3.2 w.1.3.3 (λ a. ground (arith, w.1.1, w.1.3.1)),
        )
        | no f ↦ (
          init ++ l' ∷ y ∷ rest,
          rw (left_touch start end init l (y ∷ rest) s e, right_apart start end init l' s y rest f)
              refl,
          replace-Adds lo hi start end init (l ∷ []) (y ∷ rest) l' w.0 w.1.0 (omega (arith, w.1.1))
              high (omega arith, w.1.3.1, w.1.3.2, w.1.3.3) (λ a. ground (arith, w.1.1)),
        )
      ]

  -- The range `l` stands in front, and does not touch.
  add_apart :
      (init : List Range) (l : Range) (behind : List Range)
      → IsFreeMap lo hi (init ++ l ∷ behind)
      → l.end < start
      → Starts end behind
      → Added (suc (length init)) (init ++ l ∷ behind)
  add_apart init l [] m e h =
      let w = split-IsFreeMap lo hi init (l ∷ []) m in
      (
        init ++ l ∷ new ∷ [],
        rw
            (
              left_apart start end init l [] s (omega arith),
              right_none start end init l s,
              insert-append_next init l [] new,
            )
            refl,
        exchange-Adds lo hi start end init (l ∷ []) (l ∷ new ∷ []) [] w.0
            (w.1.0, w.1.1, w.1.2, (omega arith, wide, high, tt)) (λ a. ground arith),
      )
  add_apart init l (y ∷ rest) m e h =
      let w = split-IsFreeMap lo hi init (l ∷ y ∷ rest) m in
      elim (ℕ_discrete y.start end) [
        | yes f ↦ (
          init ++ l ∷ record y { start = start } ∷ rest,
          rw
              (
                left_apart start end init l (y ∷ rest) s (omega arith),
                right_touch start end init l s y rest f,
              )
              refl,
          exchange-Adds lo hi start end init (l ∷ y ∷ []) (l ∷ record y { start = start } ∷ []) rest
              w.0 (w.1.0, w.1.1, w.1.2, (omega arith, omega (arith, w.1.3.1), w.1.3.2, w.1.3.3))
              (λ a. ground (arith, w.1.3.1)),
        )
        | no f ↦ (
          init ++ l ∷ new ∷ y ∷ rest,
          rw
              (
                left_apart start end init l (y ∷ rest) s (omega arith),
                right_apart start end init l s y rest f,
                insert-append_next init l (y ∷ rest) new,
              )
              refl,
          exchange-Adds lo hi start end init (l ∷ []) (l ∷ new ∷ []) (y ∷ rest) w.0
              (
                w.1.0,
                w.1.1,
                w.1.2,
                (omega arith, wide, high, (omega arith, w.1.3.1, w.1.3.2, w.1.3.3)),
              )
              (λ a. ground arith),
        )
      ]

  add_at-Added :
      (before behind : List Range)
      → IsFreeMap lo hi (before ++ behind)
      → All (λ y. y.end ≤ start) before
      → Starts end behind
      → Added (length before) (before ++ behind)
  add_at-Added before behind m left right = elim (last-cases before) [
    | inl e ↦ rw e (add_first behind (rw e at m) right)
    | inr (init, l, e) ↦
        let shape : before ++ behind ≡ init ++ l ∷ behind =
          ap (λ z. z ++ behind) e ∙ append_assoc init (l ∷ []) behind in
        let size : length before ≡ suc (length init) =
          ap length e ∙ omega (arith, length-append init (l ∷ [])) in
        let last = (split-All (λ (y : Range). y.end ≤ start) init (l ∷ []) (rw e at left)).1.0 in
        let m' = rw shape at m in
        rw (size, shape)
          (elim (ℕ_discrete l.end start) [
            | yes f ↦ add_touching init l behind m' f right
            | no f ↦ add_apart init l behind m' (omega arith) right
          ])
  ]

-- A range that is apart from all free ones.
abbrev pub Apart : ℕ → ℕ → List Range → Type 0
Apart start end = All (λ x. (x.end ≤ start) ⊎ (end ≤ x.start))

-- The search for the place: what stands before it lies below, what stands behind lies above.
record Place (start end : ℕ) (xs : List Range) : Type 0 where
  before : List Range
  behind : List Range
  parts : xs ≡ before ++ behind
  index : or_length xs (position (λ y. leb end y.start) xs) ≡ length before
  left : All (λ y. y.end ≤ start) before
  right : Starts end behind

below :
    (start end lo hi : ℕ) (xs : List Range)
    → start < end
    → IsFreeMap lo hi xs
    → Apart start end xs
    → All (λ y. leb end y.start ≡ false) xs
    → All (λ y. y.end ≤ start) xs
below start end lo hi [] wide m h k = tt
below start end lo hi (x ∷ xs) wide m h k =
    let off = h.0 in
    let fails = k.0 in (ground (arith, m.1), below start end (x.end + 1) hi xs wide m.3 h.1 k.1)

find-Place :
    (start end lo hi : ℕ) (xs : List Range)
    → start < end
    → IsFreeMap lo hi xs
    → Apart start end xs
    → Place start end xs
find-Place start end lo hi xs wide m h = elim (position-cases (λ y. leb end y.start) xs) [
  | inl (none_there, all) ↦ record {
    before = xs;
    behind = [];
    parts = sym (append-nil xs);
    index = rw none_there refl;
    left = below start end lo hi xs wide m h all;
    right = tt;
  }
  | inr f ↦ record {
    before = f.before;
    behind = f.here ∷ f.behind;
    parts = f.parts;
    index = ap (or_length xs) f.index;
    left =
        let w = split-IsFreeMap lo hi f.before (f.here ∷ f.behind) (rw f.parts at m) in
        let off =
          split-All (λ (y : Range). (y.end ≤ start) ⊎ (end ≤ y.start)) f.before (f.here ∷ f.behind)
            (rw f.parts at h) in
        below start end lo hi f.before wide w.0 off.0 f.fails;
    right = let passes = f.passes in ground arith;
  }
]

add_sorted-Adds :
    (lo hi start end : ℕ) (xs : List Range) (s : Sys)
    → IsFreeMap lo hi xs
    → lo ≤ start
    → start < end
    → end ≤ hi
    → Apart start end xs
    → (ys : List Range) × (add_sorted start end xs s ≡ ok ys s) × Adds lo hi xs start end ys
unfolding add_sorted
add_sorted-Adds lo hi start end xs s m low wide high h =
    let p = find-Place start end lo hi xs wide m h in
    let done =
      add_at-Added lo hi start end s low wide high p.before p.behind
        (subst (λ zs. IsFreeMap lo hi zs) p.parts m) p.left p.right in
    rw p.index
      (subst (λ zs. Added lo hi start end s low wide high (length p.before) zs) (sym p.parts) done)

pub add_range_to_freemap-Adds :
    (lo hi start len : ℕ) (xs : List Range) (s : Sys)
    → IsFreeMap lo hi xs
    → lo ≤ start
    → 0 < len
    → start + len ≤ hi
    → hi < 2 ^ 64
    → Apart start (start + len) xs
    → (ys : List Range) × (add_range_to_freemap start len xs s ≡ ok ys s)
      × Adds lo hi xs start (start + len) ys
unfolding add_range_to_freemap
add_range_to_freemap-Adds lo hi start len [] s m low pos high top h =
    let e : add64 start len ≡ start + len = omega arith in
    rw e (add_first lo hi start (start + len) s low (omega arith) high [] m tt)
add_range_to_freemap-Adds lo hi start len (x ∷ xs) s m low pos high top h =
    let e : add64 start len ≡ start + len = omega arith in
    rw e (add_sorted-Adds lo hi start (start + len) (x ∷ xs) s m low (omega arith) high h)
