-- ===== src/Mosalloc/FreeMap/Delete.antt =====
-- Taking a range out of a free map.
use mathlib.Core.Path.{subst}
use mosalloc_rs.Base.{
  All-mono, All-append, ℕ, ◌+◌, ◌-◌, ◌^◌, ◌≤◌, ◌<◌, ◌≡◌, refl, sym, ◌⊎◌, inl, inr, arith, List, [],
  ◌∷◌, ◌++◌, true, false, ◌&&◌, ◌||◌, not, if◌then◌else◌, ◌==◌, leb, ltb, add64, max_size_t, length,
  All, position-cases, position, get_elem?-append, set-append, remove-append, insert-append_next,
  suc, Bool-cases, some,
}
use mosalloc_rs.Mosalloc.System.{Sys}
use mosalloc_rs.Mosalloc.System.Ends.{Ends, ends}
use mosalloc_rs.Mosalloc.FreeMap.{
  Range, range_len, range_contains, has_room, take_range, del_range_from_freemap,
}
use mosalloc_rs.Mosalloc.FreeMap.Sorted.{
  IsFreeMap, is_free, floor, IsFreeMap-mono, split-IsFreeMap, append-IsFreeMap, is_free-append,
  floor-ge, is_free-below, is_free-above, starts_above,
}

-- The free map `ys` is `xs` without the addresses of `len` bytes from `r` on, which were free.
pub record Deletes (lo hi : ℕ) (xs : List Range) (r len : ℕ) (ys : List Range) : Type 0 where
  pub well : IsFreeMap lo hi ys
  pub was : (a : ℕ) → r ≤ a → a < r + len → is_free a xs ≡ true
  pub now : (a : ℕ) → is_free a ys ≡ (is_free a xs && not (leb r a && ltb a (r + len)))

-- What stands in place of a range: nothing, one or two ranges inside of it.
module _ (lo hi : ℕ) (before behind : List Range) (x : Range)
    (map : IsFreeMap lo hi (before ++ x ∷ behind)) where
  abbrev whole : IsFreeMap lo hi before × IsFreeMap (floor lo before) hi (x ∷ behind)
  whole = split-IsFreeMap lo hi before (x ∷ behind) map

  -- An address of `x` is in no other range.
  only_here :
      (a : ℕ) → x.start ≤ a → a < x.end → (is_free a before ≡ false) × (is_free a behind ≡ false)
  only_here a l h =
      let m = whole in
      (
        is_free-above a lo hi before m.0 (omega (arith, m.1.0))
            (omega (arith, m.1.0, floor-ge lo hi before m.0)),
        is_free-below a (x.end + 1) hi behind m.1.3 (omega arith),
      )

  replace-Deletes :
      (middle : List Range) (r len : ℕ)
      → IsFreeMap (floor lo before) hi (middle ++ behind)
      → x.start ≤ r
      → r + len ≤ x.end
      → ((a : ℕ) → is_free a middle ≡ (range_contains x a && not (leb r a && ltb a (r + len))))
      → Deletes lo hi (before ++ x ∷ behind) r len (before ++ (middle ++ behind))
  replace-Deletes middle r len tail low high inside = record {
    well = append-IsFreeMap lo hi before (middle ++ behind) whole.0 tail;
    was = λ a l h. ground (arith, is_free-append a before (x ∷ behind));
    now = λ a. ground (
      arith,
      is_free-append a before (middle ++ behind),
      is_free-append a middle behind,
      is_free-append a before (x ∷ behind),
      inside a,
      only_here a,
    );
  }

  -- The range is taken from the start of `x`.
  abbrev pub front : ℕ → List Range
  front len = if range_len x == len then [] else record { start = x.start + len; end = x.end } ∷ []

  pub front-Deletes :
      (len : ℕ)
      → 0 < len
      → len ≤ x.end - x.start
      → Deletes lo hi (before ++ x ∷ behind) x.start len (before ++ (front len ++ behind))
  front-Deletes len pos fit =
      let m = whole in
      replace-Deletes (front len) x.start len
        (elim (Bool-cases (range_len x == len)) [
          | inl all ↦
              rw all
                (IsFreeMap-mono (floor lo before) (x.end + 1) hi behind (omega (arith, m.1)) m.1.3)
          | inr part ↦ rw part (omega (arith, m.1), ground (arith, m.1.1), m.1.2, m.1.3)
        ])
        (omega arith) (omega (arith, m.1.1)) (λ a. ground arith)

  pub take_front :
      (start len : ℕ)
      → (start == 0 || start == x.start) ≡ true
      → hi < 2 ^ 64
      → len ≤ x.end - x.start
      → take_range start len (before ++ x ∷ behind) (length before) x
        ≡ before ++ (front len ++ behind)
  take_front start len e top fit =
      let m = whole in
      let moved : add64 x.start len ≡ x.start + len = omega (arith, m.1.1, m.1.2) in
      elim (Bool-cases (range_len x == len)) [
        | inl all ↦ rw (all, remove-append before x behind) refl
        | inr part ↦
            rw
              (
                part,
                e,
                moved,
                set-append before x behind (record { start = x.start + len; end = x.end }),
              )
              refl
      ]

  -- The range is taken from the middle of `x`.
  pub middle_Deletes :
      (r len : ℕ)
      → 0 < len
      → x.start < r
      → r + len < x.end
      → Deletes lo hi (before ++ x ∷ behind) r len (
          before
          ++ record { start = x.start; end = r } ∷ record { start = r + len; end = x.end } ∷ behind)
  middle_Deletes r len pos low high =
      let m = whole in
      replace-Deletes
        (record { start = x.start; end = r } ∷ record { start = r + len; end = x.end } ∷ []) r len
        (omega (arith, m.1), low, omega (arith, m.1), (omega arith, high, m.1.2, m.1.3))
        (omega arith) (omega arith) (λ a. ground arith)

  pub take_middle :
      (r len : ℕ)
      → x.start < r
      → 0 < len
      → r + len < x.end
      → hi < 2 ^ 64
      → take_range r len (before ++ x ∷ behind) (length before) x
        ≡ before
          ++ record { start = x.start; end = r } ∷ record { start = r + len; end = x.end } ∷ behind
  take_middle r len low pos high top =
      let m = whole in
      let moved : add64 r len ≡ r + len = omega (arith, m.1.1, m.1.2) in
      let part : (range_len x == len) ≡ false = ground arith in
      let apart : (r == 0 || r == x.start) ≡ false = ground arith in
      let next : length before + 1 ≡ suc (length before) = omega arith in
      rw
        (
          part,
          apart,
          moved,
          next,
          set-append before x behind (record { start = x.start; end = r }),
          insert-append_next before (record { start = x.start; end = r }) behind
              (record { start = r + len; end = x.end }),
        )
        refl

-- The first range with room for `len` bytes gives them from its start; if there is none, the
-- result is usize::MAX.
abbrev pub FirstFit : ℕ → ℕ → List Range → ℕ → List Range → ℕ → Type 0
FirstFit lo hi xs len ys r =
    ((r ≡ max_size_t) × (ys ≡ xs) × All (λ x. range_len x < len) xs)
    ⊎ ((lo ≤ r)
        × (r + len ≤ hi)
        × Deletes lo hi xs r len ys
        × All (λ x. (r ≤ x.start) ⊎ (range_len x < len)) xs)

no_room :
    (lo hi len : ℕ) (xs : List Range)
    → IsFreeMap lo hi xs
    → hi < 2 ^ 64
    → All (λ x. has_room 0 len x ≡ false) xs
    → All (λ x. range_len x < len) xs
no_room lo hi len [] m top h = tt
no_room lo hi len (x ∷ xs) m top h =
    let fails = h.0 in (ground (arith, m.0, m.1, m.2), no_room (x.end + 1) hi len xs m.3 top h.1)

FirstFit-found :
    (lo hi len : ℕ) (before behind : List Range) (x : Range) (s : Sys)
    → IsFreeMap lo hi (before ++ x ∷ behind)
    → 0 < len
    → hi < 2 ^ 64
    → position (has_room 0 len) (before ++ x ∷ behind) ≡ some (length before)
    → All (λ y. has_room 0 len y ≡ false) before
    → has_room 0 len x ≡ true
    → Ends
        (λ out s'. (s' ≡ s) × FirstFit lo hi (before ++ x ∷ behind) len out.0 out.1)
        (del_range_from_freemap 0 len (before ++ x ∷ behind) s)
unfolding del_range_from_freemap
FirstFit-found lo hi len before behind x s m pos top at full room =
    let w = split-IsFreeMap lo hi before (x ∷ behind) m in
    let fit : len ≤ x.end - x.start = ground (arith, w.1) in
    let lowest =
      All-append (λ y. (x.start ≤ y.start) ⊎ (range_len y < len)) before (x ∷ behind)
        (All-mono before (λ y h. inr h) (no_room lo hi len before w.0 top full))
        (
          inl (omega arith),
          All-mono behind (λ y h. inl (omega (arith, w.1.1)))
              (starts_above (x.end + 1) hi behind w.1.3),
        ) in
    rw (at, get_elem?-append before x behind)
      (ends (
        refl,
        inr (
          omega (arith, w.1.0, floor-ge lo hi before w.0),
          omega (arith, w.1.1, w.1.2),
          rw (take_front lo hi before behind x m 0 len refl top fit)
              (front-Deletes lo hi before behind x m len pos fit),
          lowest,
        ),
      ))

pub del_range_from_freemap-FirstFit :
    (lo hi len : ℕ) (xs : List Range) (s : Sys)
    → IsFreeMap lo hi xs
    → 0 < len
    → hi < 2 ^ 64
    → Ends
        (λ out s'. (s' ≡ s) × FirstFit lo hi xs len out.0 out.1)
        (del_range_from_freemap 0 len xs s)
unfolding del_range_from_freemap
del_range_from_freemap-FirstFit lo hi len xs s m pos top =
    elim (position-cases (has_room 0 len) xs) [
      | inl (none_there, all) ↦
          rw none_there (ends (refl, inl (refl, refl, no_room lo hi len xs m top all)))
      | inr f ↦
          subst
            (λ zs.
              Ends (λ out s'. (s' ≡ s) × FirstFit lo hi zs len out.0 out.1)
                (del_range_from_freemap 0 len zs s))
            (sym f.parts)
            (FirstFit-found lo hi len f.before f.behind f.here s (rw f.parts at m) pos top
              (rw f.parts at f.index) f.fails f.passes)
    ]
