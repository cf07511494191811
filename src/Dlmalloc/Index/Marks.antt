-- ===== src/Dlmalloc/Index/Marks.antt =====
-- The bits of a bin map after a bin is marked or cleared.
use native.Mathlib.Nat.{pow-suc}
use mosalloc_rs.Base.{
  ℕ, zero, suc, ◌+◌, ◌-◌, ◌/◌, ◌%◌, ◌^◌, ◌≤◌, ◌≡◌, inl, inr, arith, ◌==◌, if◌then◌else◌, true,
  false, Bool-cases,
}
use mosalloc_rs.Base.Bits.Lowest.{bit_at, bit_at-suc}
use mosalloc_rs.Dlmalloc.Index.{map_is_marked, mark_map, clear_map}

pow-le_of_bit_at : (m i : ℕ) → bit_at m i ≡ 1 → 2 ^ i ≤ m
pow-le_of_bit_at m zero e = omega arith
pow-le_of_bit_at m (suc i) e =
    omega (arith, pow-suc 2 i, pow-le_of_bit_at (m / 2) i (rw (← bit_at-suc m i) e))

bit_at-add :
    (m i j : ℕ) → bit_at m i ≡ 0 → bit_at (m + 2 ^ i) j ≡ (if j == i then 1 else bit_at m j)
bit_at-add m zero zero e = omega arith
bit_at-add m zero (suc j) e =
    let half : (m + 1) / 2 ≡ m / 2 = omega arith in
    rw (bit_at-suc (m + 1) j, half, bit_at-suc m j) (ground arith)
bit_at-add m (suc i) zero e =
    let even : (m + 2 ^ suc i) / 1 % 2 ≡ m / 1 % 2 = omega (arith, pow-suc 2 i) in
    ground (arith, even)
bit_at-add m (suc i) (suc j) e =
    let half : (m + 2 ^ suc i) / 2 ≡ m / 2 + 2 ^ i = omega (arith, pow-suc 2 i) in
    rw (bit_at-suc (m + 2 ^ suc i) j, half, bit_at-suc m j)
      (ground (arith, bit_at-add (m / 2) i j (rw (← bit_at-suc m i) e)))

bit_at-sub :
    (m i j : ℕ) → bit_at m i ≡ 1 → bit_at (m - 2 ^ i) j ≡ (if j == i then 0 else bit_at m j)
bit_at-sub m zero zero e = omega arith
bit_at-sub m zero (suc j) e =
    let half : (m - 1) / 2 ≡ m / 2 = omega arith in
    rw (bit_at-suc (m - 1) j, half, bit_at-suc m j) (ground arith)
bit_at-sub m (suc i) zero e =
    let even : (m - 2 ^ suc i) / 1 % 2 ≡ m / 1 % 2 =
      omega (arith, pow-suc 2 i, pow-le_of_bit_at m (suc i) e) in
    ground (arith, even)
bit_at-sub m (suc i) (suc j) e =
    let half : (m - 2 ^ suc i) / 2 ≡ m / 2 - 2 ^ i = omega (arith, pow-suc 2 i) in
    rw (bit_at-suc (m - 2 ^ suc i) j, half, bit_at-suc m j)
      (ground (arith, bit_at-sub (m / 2) i j (rw (← bit_at-suc m i) e)))

-- Marking bin `i` marks it and leaves the marks of the other bins.
pub mark_map-marked :
    (m i j : ℕ) → map_is_marked (mark_map m i) j ≡ (if j == i then true else map_is_marked m j)
mark_map-marked m i j = elim (Bool-cases (map_is_marked m i)) [
  | inl set ↦ rw set (ground arith)
  | inr free ↦ rw free (ground (arith, bit_at-add m i j (ground arith)))
]

-- Clearing the mark of bin `i` clears it and leaves the marks of the other bins.
pub clear_map-marked :
    (m i j : ℕ) → map_is_marked (clear_map m i) j ≡ (if j == i then false else map_is_marked m j)
clear_map-marked m i j = elim (Bool-cases (map_is_marked m i)) [
  | inl set ↦ rw set (ground (arith, bit_at-sub m i j (ground arith)))
  | inr free ↦ rw free (ground arith)
]
