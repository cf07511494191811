-- ===== src/Dlmalloc/Index/Tree.antt =====
-- The bin that compute_tree_index chooses, against the ranges of sizes that the bins are meant to
-- hold (compute_tree_index and minsize_for_tree_index of dlmalloc/dlmalloc.c, and the assertions on
-- them in do_check_tree).
use native.Mathlib.Nat.{pow-suc, div-eq_of_lt-le}
use native.Mathlib.Numerals.{towards_suc}
use mosalloc_rs.Base.{
  ℕ, zero, suc, ◌+◌, ◌-◌, ◌*◌, ◌/◌, ◌%◌, ◌^◌, ◌≤◌, ◌<◌, ◌≡◌, refl, ◌⊎◌, inl, inr, arith, ltb, ne→==,
  lt→ltb, Bool-cases,
}
use mosalloc_rs.Dlmalloc.Index.{
  ntreebins, min_large_size, highest_bit, compute_tree_index, minsize_for_tree_index,
}

-- Size `n` belongs in treebin `i`.
pub record InTreeBin (n i : ℕ) : Type 0 where
  pub index : i < ntreebins
  pub lower : minsize_for_tree_index i ≤ n
  pub upper : (i ≡ ntreebins - 1) ⊎ (n < minsize_for_tree_index (i + 1))

highest_bit-bounds :
    (w x : ℕ) → 0 < x → x < 2 ^ w → (2 ^ highest_bit w x ≤ x) × (x < 2 ^ highest_bit w x * 2)
unfolding highest_bit
highest_bit-bounds zero x pos h = absurd (omega arith)
highest_bit-bounds (suc w) x pos h = elim (Bool-cases (ltb x 2)) [
  | inl small ↦ rw small (ground arith)
  | inr large ↦
      let two : 2 ≤ x = ground arith in
      let ih = highest_bit-bounds w (x / 2) (omega arith) (omega (arith, pow-suc 2 w)) in
      rw large (omega (arith, ih, pow-suc 2 (highest_bit w (x / 2))))
]

minsize-even : (k : ℕ) → minsize_for_tree_index (k * 2) ≡ 2 * 2 ^ (k + 7)
minsize-even k =
    let half : k * 2 / 2 ≡ k = omega arith in
    let bit : k * 2 % 2 ≡ 0 = omega arith in
    let up : k + 8 ≡ suc (k + 7) = omega arith in
    rw (half, bit, up) (omega (arith, pow-suc 2 (k + 7)))

minsize-odd : (k : ℕ) → minsize_for_tree_index (k * 2 + 1) ≡ 3 * 2 ^ (k + 7)
minsize-odd k =
    let half : (k * 2 + 1) / 2 ≡ k = omega arith in
    let bit : (k * 2 + 1) % 2 ≡ 1 = omega arith in
    let up : k + 8 ≡ suc (k + 7) = omega arith in
    let down : k + 8 - 1 ≡ k + 7 = omega arith in
    rw (half, bit, down, up) (omega (arith, pow-suc 2 (k + 7)))

-- The sizes from 2 * 2 ^ (k + 7) on fall in the bins 2 * k and 2 * k + 1, split at 3 * 2 ^ (k + 7).
in_half :
    (k n : ℕ)
    → k < 16
    → 2 * 2 ^ (k + 7) ≤ n
    → n < 4 * 2 ^ (k + 7)
    → InTreeBin n (k * 2 + n / 2 ^ (k + 7) % 2)
in_half k n h lo hi = elim (Bool-cases (ltb n (3 * 2 ^ (k + 7)))) [
  | inl left ↦
      let q : n / 2 ^ (k + 7) ≡ 2 = div-eq_of_lt-le (2 ^ (k + 7)) (omega arith) (ground arith) in
      let i : k * 2 + n / 2 ^ (k + 7) % 2 ≡ k * 2 = omega arith in
      rw i (record {
        index = omega arith;
        lower = omega (arith, minsize-even k);
        upper = inr (rw (minsize-odd k) (ground arith));
      })
  | inr right ↦
      let q : n / 2 ^ (k + 7) ≡ 3 = div-eq_of_lt-le (2 ^ (k + 7)) (ground arith) (omega arith) in
      let i : k * 2 + n / 2 ^ (k + 7) % 2 ≡ k * 2 + 1 = omega arith in
      let next : k * 2 + 1 + 1 ≡ suc k * 2 = omega arith in
      let up : suc k + 7 ≡ suc (k + 7) = omega arith in
      rw i (record {
        index = omega arith;
        lower = rw (minsize-odd k) (ground arith);
        upper = inr (rw (next, minsize-even (suc k), up, pow-suc 2 (k + 7)) (omega arith));
      })
]

-- A number below 2 ^ (j + 1) has its highest bit at place `j` at most.
highest_bit-lt : (w j x : ℕ) → x < 2 ^ suc j → highest_bit w x ≤ j
unfolding highest_bit
highest_bit-lt zero j x h = omega arith
highest_bit-lt (suc w) zero x h = rw (lt→ltb x 2 h) (omega arith)
highest_bit-lt (suc w) (suc j) x h = elim (Bool-cases (ltb x 2)) [
  | inl small ↦ rw small (omega arith)
  | inr large ↦
      rw large (omega (arith, highest_bit-lt w j (x / 2) (omega (arith, pow-suc 2 (suc j)))))
]

scale : (k : ℕ) → 2 ^ (k + 7) ≡ 128 * 2 ^ k
scale k = simp towards_suc (omega (arith, pow-suc 2 k))

-- For every large chunk size below 2 ^ 40 the computed bin is one of the 32, its range of sizes
-- begins at or below the size and, but for the last bin, ends above it.
pub compute_tree_index-InTreeBin :
    (n : ℕ) → min_large_size ≤ n → n < 2 ^ 40 → InTreeBin n (compute_tree_index n)
unfolding compute_tree_index
compute_tree_index-InTreeBin n lo hi =
    let same : n / 2 ^ 8 % 2 ^ 32 ≡ n / 256 = omega arith in
    rw (same, ne→== (n / 256) 0 (omega arith))
      (elim (Bool-cases (ltb 65535 (n / 256))) [
        | inl big ↦ rw big (record { index = omega arith; lower = ground arith; upper = inl refl })
        | inr fits ↦
            let k = highest_bit 32 (n / 256) in
            let b = highest_bit-bounds 32 (n / 256) (omega arith) (omega arith) in
            let small : k < 16 = omega (arith, highest_bit-lt 32 15 (n / 256) (ground arith)) in
            rw fits (in_half k n small (omega (arith, b, scale k)) (omega (arith, b, scale k)))
      ])

-- A size that is a positive multiple of 2 ^ 40 does not belong in the bin that is computed for it.
pub compute_tree_index-not_InTreeBin :
    (q : ℕ) → 0 < q → ¬ InTreeBin (q * 2 ^ 40) (compute_tree_index (q * 2 ^ 40))
unfolding compute_tree_index
compute_tree_index-not_InTreeBin q pos =
    let none_left : q * 2 ^ 40 / 2 ^ 8 % 2 ^ 32 ≡ 0 = omega arith in
    rw none_left (λ b. ground arith)
