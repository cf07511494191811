-- ===== src/Mosalloc/FreeMap/Sorted.antt =====
-- What a free map stands for, and when it is well-formed.
use mosalloc_rs.Base.{
  All, All-mono, ℕ, ◌+◌, ◌≤◌, ◌<◌, ◌≡◌, refl, arith, List, [], ◌∷◌, ◌++◌, Bool, false, ◌||◌,
}
use mosalloc_rs.Mosalloc.FreeMap.{Range, range_contains}

-- Between `lo` and `hi`: sorted, no range empty, and no two of them touching.
abbrev pub IsFreeMap : ℕ → ℕ → List Range → Type 0
IsFreeMap lo hi [] = Unit
IsFreeMap lo hi (x ∷ xs) =
    (lo ≤ x.start) × (x.start < x.end) × (x.end ≤ hi) × IsFreeMap (x.end + 1) hi xs

-- The address `a` is free.
abbrev pub is_free : ℕ → List Range → Bool
is_free a [] = false
is_free a (x ∷ xs) = range_contains x a || is_free a xs

-- Where the next range may start at the earliest.
abbrev pub floor : ℕ → List Range → ℕ
floor lo [] = lo
floor lo (x ∷ xs) = floor (x.end + 1) xs

pub IsFreeMap-mono :
    (lo' lo hi : ℕ) (xs : List Range) → lo' ≤ lo → IsFreeMap lo hi xs → IsFreeMap lo' hi xs
IsFreeMap-mono lo' lo hi [] h m = tt
IsFreeMap-mono lo' lo hi (x ∷ xs) h m = (omega arith, m.1, m.2, m.3)

pub split-IsFreeMap :
    (lo hi : ℕ) (xs ys : List Range)
    → IsFreeMap lo hi (xs ++ ys)
    → IsFreeMap lo hi xs × IsFreeMap (floor lo xs) hi ys
split-IsFreeMap lo hi [] ys m = (tt, m)
split-IsFreeMap lo hi (x ∷ xs) ys m =
    let parts = split-IsFreeMap (x.end + 1) hi xs ys m.3 in ((m.0, m.1, m.2, parts.0), parts.1)

pub append-IsFreeMap :
    (lo hi : ℕ) (xs ys : List Range)
    → IsFreeMap lo hi xs
    → IsFreeMap (floor lo xs) hi ys
    → IsFreeMap lo hi (xs ++ ys)
append-IsFreeMap lo hi [] ys m n = n
append-IsFreeMap lo hi (x ∷ xs) ys m n =
    (m.0, m.1, m.2, append-IsFreeMap (x.end + 1) hi xs ys m.3 n)

pub is_free-append :
    (a : ℕ) (xs ys : List Range) → is_free a (xs ++ ys) ≡ (is_free a xs || is_free a ys)
is_free-append a [] ys = refl
is_free-append a (x ∷ xs) ys = ground (arith, is_free-append a xs ys)

pub floor-append : (lo : ℕ) (xs ys : List Range) → floor lo (xs ++ ys) ≡ floor (floor lo xs) ys
floor-append lo [] ys = refl
floor-append lo (x ∷ xs) ys = floor-append (x.end + 1) xs ys

-- The ranges of a well-formed map lie below the floor that they set, above the one they stand on.
pub floor-ge : (lo hi : ℕ) (xs : List Range) → IsFreeMap lo hi xs → lo ≤ floor lo xs
floor-ge lo hi [] m = omega arith
floor-ge lo hi (x ∷ xs) m = omega (arith, floor-ge (x.end + 1) hi xs m.3)

pub is_free-below :
    (a lo hi : ℕ) (xs : List Range) → IsFreeMap lo hi xs → a < lo → is_free a xs ≡ false
is_free-below a lo hi [] m h = refl
is_free-below a lo hi (x ∷ xs) m h =
    ground (arith, is_free-below a (x.end + 1) hi xs m.3 (omega arith))

pub is_free-above :
    (a lo hi : ℕ) (xs : List Range)
    → IsFreeMap lo hi xs
    → floor lo xs ≤ a + 1
    → lo ≤ a + 1
    → is_free a xs ≡ false
is_free-above a lo hi [] m h l = refl
is_free-above a lo hi (x ∷ xs) m h l =
    let low = floor-ge (x.end + 1) hi xs m.3 in
    ground (arith, is_free-above a (x.end + 1) hi xs m.3 h (omega arith))

pub starts_above : (lo hi : ℕ) (xs : List Range) → IsFreeMap lo hi xs → All (λ x. lo ≤ x.start) xs
starts_above lo hi [] m = tt
starts_above lo hi (x ∷ xs) m =
    (m.0, All-mono xs (λ y h. omega arith) (starts_above (x.end + 1) hi xs m.3))

-- A range in front of one that holds an address does not hold it.
pub not_before :
    (a lo hi : ℕ) (xs : List Range)
    → IsFreeMap lo hi xs
    → floor lo xs ≤ a
    → All (λ x. range_contains x a ≡ false) xs
not_before a lo hi [] m h = tt
not_before a lo hi (x ∷ xs) m h =
    let low = floor-ge (x.end + 1) hi xs m.3 in (ground arith, not_before a (x.end + 1) hi xs m.3 h)
