-- ===== src/Mosalloc/RangeList/Collect.antt =====
-- What a loop over a list of ranges goes through.
use mosalloc_rs.Base.{
  ℕ, zero, suc, ◌+◌, ◌-◌, ◌≤◌, ◌≡◌, refl, sym, ap, ◌∙◌, arith, List, [], ◌∷◌, ◌++◌, All, Bool, true,
  false, ◌&&◌, ◌||◌, some, ◌==◌, leb, ltb, lt→ltb, le→ltb, Bool-cases, inl, inr,
}
use mosalloc_rs.Mosalloc.RangeList.{
  RangeInclusive, RangeList, RangeListIter, next_id, next, iter, collect, contains,
}

-- The `n` numbers from `s` on.
abbrev pub count_from : ℕ → ℕ → List ℕ
count_from zero s = []
count_from (suc n) s = s ∷ count_from n (suc s)

abbrev pub ids : RangeInclusive → List ℕ
ids r = count_from (suc (r.end - r.start)) r.start

abbrev pub all_ids : RangeList → List ℕ
all_ids [] = []
all_ids (r ∷ rs) = ids r ++ all_ids rs

abbrev pub elem : ℕ → List ℕ → Bool
elem n [] = false
elem n (x ∷ xs) = n == x || elem n xs

-- How many rounds the loop takes, the last one included.
abbrev pub rounds : RangeList → ℕ
rounds [] = 1
rounds (r ∷ rs) = suc (r.end - r.start) + rounds rs

-- The range begins with its first number.
abbrev pub IsFull : RangeInclusive → Type 0
IsFull r = (r.start ≤ r.end) × (r.exhausted ≡ false)

abbrev at_range : List RangeInclusive → ℕ → ℕ → Bool → RangeListIter
at_range rs s e x = record {
  rangelist_iter = rs;
  range_iter = record { start = s; end = e; exhausted = x };
}

-- The numbers of the range that the iterator stands in.
in_range :
    (n s e fuel all : ℕ) (rs : List RangeInclusive) (ns : List ℕ)
    → s + n ≡ e
    → suc (n + fuel) ≡ all
    → collect fuel (at_range rs e e true) ≡ some ns
    → collect all (at_range rs s e false) ≡ some (count_from (suc n) s ++ ns)
unfolding collect next next_id
in_range n s e fuel zero rs ns end rounds h = absurd (omega arith)
in_range zero s e fuel (suc all) rs ns end rounds h =
    let here : s ≡ e = omega arith in
    let rest : all ≡ fuel = omega arith in rw (here, rest, le→ltb e e (omega arith), h) refl
in_range (suc n) s e fuel (suc all) rs ns end rounds h =
    rw
      (
        le→ltb e s (omega arith),
        lt→ltb s e (omega arith),
        in_range n (suc s) e fuel all rs ns (omega arith) (omega arith) h,
      )
      refl

-- A range that is used up makes place for the next one.
used_up :
    (fuel s e : ℕ) (r : RangeInclusive) (rs : List RangeInclusive)
    → IsFull r
    → collect fuel (at_range (r ∷ rs) s e true) ≡ collect fuel (at_range rs r.start r.end false)
unfolding collect next next_id
used_up zero s e r rs full = refl
used_up (suc fuel) s e r rs full = elim (Bool-cases (ltb r.start r.end)) [
  | inl more ↦ rw (full.1, le→ltb r.end r.start full.0, more) refl
  | inr last ↦ rw (full.1, le→ltb r.end r.start full.0, last) refl
]

-- Behind a range come the numbers of the ranges that are left.
left_over :
    (rs : RangeList) (s e fuel : ℕ)
    → All IsFull rs
    → rounds rs ≤ fuel
    → collect fuel (at_range rs s e true) ≡ some (all_ids rs)
unfolding collect next next_id
left_over [] s e zero full enough = absurd (omega arith)
left_over [] s e (suc fuel) full enough = refl
left_over (r ∷ rs) s e fuel full enough =
    let n = r.end - r.start in
    used_up fuel s e r rs full.0
    ∙ in_range n r.start r.end (fuel - suc n) fuel rs (all_ids rs) (omega (arith, full.0))
        (omega arith) (left_over rs r.end r.end (fuel - suc n) full.1 (omega arith))

elem-append : (n : ℕ) (xs ys : List ℕ) → elem n (xs ++ ys) ≡ (elem n xs || elem n ys)
elem-append n [] ys = refl
elem-append n (x ∷ xs) ys = ground (arith, elem-append n xs ys)

elem-count_from : (n k s : ℕ) → elem n (count_from k s) ≡ (leb s n && ltb n (s + k))
elem-count_from n zero s = ground arith
elem-count_from n (suc k) s = ground (arith, elem-count_from n k (suc s))

elem-all_ids : (n : ℕ) (rs : RangeList) → All IsFull rs → elem n (all_ids rs) ≡ contains rs n
unfolding contains
elem-all_ids n [] full = refl
elem-all_ids n (r ∷ rs) full =
    elem-append n (ids r) (all_ids rs)
    ∙ ground
        (arith, full.0, elem-count_from n (suc (r.end - r.start)) r.start, elem-all_ids n rs full.1)

-- For a list of at least one range, each not empty and not begun, and with one round for each
-- number and one more: the loop over the iterator ends, having gone through the numbers of the
-- first range, of the second and so on, and `contains` accepts a number exactly if it is one of
-- these.
pub collect-contains :
    (r : RangeInclusive) (rs : RangeList) (fuel : ℕ)
    → All IsFull (r ∷ rs)
    → rounds (r ∷ rs) ≤ fuel
    → (it : RangeListIter) × (iter (r ∷ rs) ≡ some it)
      × (collect fuel it ≡ some (all_ids (r ∷ rs)))
      × ((n : ℕ) → elem n (all_ids (r ∷ rs)) ≡ contains (r ∷ rs) n)
unfolding iter
collect-contains r rs fuel full enough = (
  record { rangelist_iter = rs; range_iter = r },
  refl,
  ap (λ z. collect fuel (record { rangelist_iter = rs; range_iter = record r { exhausted = z } }))
        full.0.1
      ∙ sym (used_up fuel 0 0 r rs full.0)
      ∙ left_over (r ∷ rs) 0 0 fuel full enough,
  λ n. elem-all_ids n (r ∷ rs) full,
)
