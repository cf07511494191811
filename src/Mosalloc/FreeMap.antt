-- ===== src/Mosalloc/FreeMap.antt =====
-- The map of the free ranges of a region (src/libmosalloc/src/region.rs, del_range_from_freemap and
-- add_range_to_freemap).
pub mod Sorted
pub mod Delete
pub mod Address
pub mod Merge
pub mod Add
pub mod Canonical
use mosalloc_rs.Base.{
  ℕ, ◌+◌, ◌-◌, List, [], ◌∷◌, Bool, true, false, ◌&&◌, ◌||◌, not, Option, none, some, if◌then◌else◌,
  ◌==◌, leb, ltb, add64, sub64, max_size_t, position, set, remove, insert, length,
}
use mosalloc_rs.Mosalloc.System.{Cmd, ◌>>=◌, pure, elem_at}

-- std::ops::Range<usize>, with len() and contains().
pub record Range : Type 0 where
  pub start : ℕ
  pub end : ℕ

abbrev pub range_len : Range → ℕ
range_len x = if ltb x.start x.end then x.end - x.start else 0

abbrev pub range_contains : Range → ℕ → Bool
range_contains x a = leb x.start a && ltb a x.end

-- What `position` looks for in del_range_from_freemap.
abbrev pub has_room : ℕ → ℕ → Range → Bool
has_room start len x = (start == 0 || range_contains x start) && leb len (sub64 (range_len x) start)

-- The free map without the range that is taken from the entry `x` at `ridx`.
abbrev pub take_range : ℕ → ℕ → List Range → ℕ → Range → List Range
take_range start len free_map ridx x =
    if range_len x == len
    then remove free_map ridx
    else if start == 0 || start == x.start
    then set free_map ridx (record x { start = add64 x.start len })
    else insert (set free_map ridx (record x { end = start })) (ridx + 1)
        (record { start = add64 start len; end = x.end })

abbrev pub del_found : ℕ → ℕ → List Range → Option ℕ → Cmd (List Range × ℕ)
del_found start len free_map none = pure (free_map, max_size_t)
del_found start len free_map (some ridx) = do
  x ← elem_at free_map ridx
  pure (take_range start len free_map ridx x, if start == 0 then x.start else start)

-- The free map and the start of the range taken, or usize::MAX.
unfoldable pub del_range_from_freemap : ℕ → ℕ → List Range → Cmd (List Range × ℕ)
del_range_from_freemap start len free_map =
    del_found start len free_map (position (has_room start len) free_map)

abbrev pub or_length : List Range → Option ℕ → ℕ
or_length free_map none = length free_map
or_length free_map (some idx) = idx

-- "check if we can merge with a range to our left", the first and the second time: the free map
-- and the flag.
abbrev pub merge_left : ℕ → ℕ → ℕ → List Range → Cmd (List Range × Bool)
merge_left start end idx free_map =
    if ltb 0 idx
    then (do
      l ← elem_at free_map (idx - 1)
      pure (
          if l.end == start
          then (set free_map (idx - 1) (record l { end = end }), true)
          else (free_map, false)))
    else pure (free_map, false)

abbrev pub merge_right : ℕ → ℕ → ℕ → List Range → Cmd (List Range × Bool)
merge_right start end idx free_map =
    if ltb idx (length free_map)
    then (do
      r ← elem_at free_map idx
      pure (
          if r.start == end
          then (set free_map idx (record r { start = start }), true)
          else (free_map, false)))
    else pure (free_map, false)

-- "if we merged with both ends, merge those together"
abbrev pub merge_both : ℕ → List Range → Cmd (List Range)
merge_both idx free_map = do
  l ← elem_at free_map (idx - 1)
  r ← elem_at free_map idx
  pure (remove (set free_map (idx - 1) (record l { end = r.end })) idx)

abbrev pub add_at : ℕ → ℕ → ℕ → List Range → Cmd (List Range)
add_at start end idx free_map = do
  l ← merge_left start end idx free_map
  r ← merge_right start end idx (l.0)
  joined ← (if l.1 && r.1 then merge_both idx (r.0) else pure (r.0))
  pure (
      if not (l.1) && not (r.1)
      then insert joined idx (record { start = start; end = end })
      else joined)

-- The part of add_range_to_freemap for a map that is not empty: the range goes before the first one
-- that starts at its end or above.
unfoldable pub add_sorted : ℕ → ℕ → List Range → Cmd (List Range)
add_sorted start end free_map =
    add_at start end (or_length free_map (position (λ x. leb end x.start) free_map)) free_map

unfoldable pub add_range_to_freemap : ℕ → ℕ → List Range → Cmd (List Range)
add_range_to_freemap start len [] = pure (record { start = start; end = add64 start len } ∷ [])
add_range_to_freemap start len (x ∷ xs) = add_sorted start (add64 start len) (x ∷ xs)
