-- ===== src/Mosalloc/RangeList.antt =====
-- Lists of ranges of numbers, as the kernel prints them (src/utils/rangelist.rs).
--
-- The text is read by the standard library; the model begins with the ranges.
pub mod Collect
use mosalloc_rs.Base.{
  ℕ, zero, suc, List, [], ◌∷◌, Bool, true, false, ◌&&◌, ◌||◌, Option, none, some, if◌then◌else◌,
  ◌==◌, leb, ltb,
}

-- RangeInclusive, with the flag that its iterator sets behind the last number.
pub record RangeInclusive : Type 0 where
  pub start : ℕ
  pub end : ℕ
  pub exhausted : Bool

-- RangeInclusive::next
unfoldable pub next_id : RangeInclusive → Option ℕ × RangeInclusive
next_id r =
    if r.exhausted || ltb r.end r.start
    then (none, r)
    else if ltb r.start r.end
    then (some r.start, record r { start = suc r.start })
    else (some r.start, record r { exhausted = true })

abbrev pub RangeList : Type 0
RangeList = List RangeInclusive

unfoldable pub contains : RangeList → ℕ → Bool
contains [] n = false
contains (r ∷ rs) n = (leb r.start n && leb n r.end) || contains rs n

pub record RangeListIter : Type 0 where
  pub rangelist_iter : List RangeInclusive
  pub range_iter : RangeInclusive

-- `none` for the panic on a list without a range.
unfoldable pub iter : RangeList → Option RangeListIter
iter [] = none
iter (r ∷ rs) = some (record { rangelist_iter = rs; range_iter = r })

-- The branches behind `self.range_iter.next()`.
abbrev pub next_range : RangeListIter → Option ℕ → RangeInclusive → Option ℕ × RangeListIter
unfolding next_id
next_range it (some n) r = (some n, record it { range_iter = r })
next_range it none r = from it.rangelist_iter
  where
    from : List RangeInclusive → Option ℕ × RangeListIter
    from [] = (none, record it { range_iter = r })
    from (x ∷ xs) =
        let out = next_id x in (out.0, record { rangelist_iter = xs; range_iter = out.1 })

unfoldable pub next : RangeListIter → Option ℕ × RangeListIter
unfolding next_id
next it = let out = next_id it.range_iter in next_range it out.0 out.1

-- A `for` loop over the iterator, which ends at the first `None`; `none` without fuel.
abbrev pub collected : Option ℕ → Option (List ℕ) → Option (List ℕ)
collected none rest = some []
collected (some n) none = none
collected (some n) (some ns) = some (n ∷ ns)

unfoldable pub collect : ℕ → RangeListIter → Option (List ℕ)
unfolding next
collect zero it = none
collect (suc fuel) it = let out = next it in collected out.0 (collect fuel out.1)
