-- ===== src/Dlmalloc/Params/Align.antt =====
-- Alignment by a unit that is a power of two (page_align and granularity_align).
use native.Mathlib.Nat.{
  pow-suc, mul_assoc, add-mul, mod-lt, one-le-pow, div-add-mod', mul-mod_left, mul-le-mul_right,
  lt_of_mul-lt-mul_right,
}
use mosalloc_rs.Base.{
  zero, suc, sym, ap, ◌∙◌, ℕ, ◌+◌, ◌-◌, ◌*◌, ◌/◌, ◌%◌, ◌^◌, ◌≤◌, ◌<◌, ◌≡◌, arith, sub64, add64,
}
use mosalloc_rs.Base.Bits.Masks.{and_not-mask}
use mosalloc_rs.Dlmalloc.Sizes.{half_max_size_t}
use mosalloc_rs.Dlmalloc.Params.{align_to}

pub round_up :
    (u n : ℕ)
    → 0 < u
    → ((n + u - 1 - (n + u - 1) % u) % u ≡ 0)
      × (n ≤ n + u - 1 - (n + u - 1) % u)
      × ((m : ℕ) → n ≤ m * u → n + u - 1 - (n + u - 1) % u ≤ m * u)
round_up u n pos =
    let x = n + u - 1 in
    let parts = div-add-mod' x u in
    let rest = mod-lt x pos in
    let whole : x - x % u ≡ x / u * u = omega arith in
    (
      rw (whole) (mul-mod_left (x / u) u),
      omega arith,
      λ m h. rw whole (mul-le-mul_right u (below u (x / u) m (omega arith))),
    )
  where
    below : (u q m : ℕ) → q * u < m * u + u → q ≤ m
    below u q m h =
        let d : (m + 1) * u ≡ m * u + u = omega arith in
        omega (arith, lt_of_mul-lt-mul_right u {m = q} {n = m + 1} (omega arith))

-- Rounding `n` up to a unit of 2 ^ k, where the sum fits a `size_t`, gives the least multiple of
-- the unit that is not below `n`.
pub align_to-IsLeast :
    (k n : ℕ)
    → n + 2 ^ k ≤ 2 ^ 64
    → 2 ^ k < 2 ^ 64
    → (align_to (2 ^ k) n % 2 ^ k ≡ 0)
      × (n ≤ align_to (2 ^ k) n)
      × ((m : ℕ) → n ≤ m * 2 ^ k → align_to (2 ^ k) n ≤ m * 2 ^ k)
unfolding align_to
align_to-IsLeast k n h l =
    let sum : add64 n (sub64 (2 ^ k) 1) ≡ n + 2 ^ k - 1 = omega (arith, one-le-pow k 2) in
    rw (sum, and_not-mask k (n + 2 ^ k - 1) l) (round_up (2 ^ k) n (one-le-pow k 2 (omega arith)))

-- A power of two from 16 on is a multiple of 16.
pow_sixteen : (k : ℕ) → 4 ≤ k → (j : ℕ) × (2 ^ k ≡ j * 16)
pow_sixteen zero h = absurd (omega arith)
pow_sixteen (suc zero) h = absurd (omega arith)
pow_sixteen (suc (suc zero)) h = absurd (omega arith)
pow_sixteen (suc (suc (suc zero))) h = absurd (omega arith)
pow_sixteen (suc (suc (suc (suc k)))) h = (
  2 ^ k,
  omega (
    arith,
    pow-suc 2 k,
    pow-suc 2 (suc k),
    pow-suc 2 (suc (suc k)),
    pow-suc 2 (suc (suc (suc k))),
  ),
)

-- Rounding up to a unit of at least 16 gives an aligned size that stays below half of the address
-- space, where the sum does.
pub aligned_size :
    (k n size : ℕ)
    → 4 ≤ k
    → size ≡ align_to (2 ^ k) n
    → n + 2 ^ k < half_max_size_t
    → (size % 16 ≡ 0) × (n ≤ size) × (size < half_max_size_t)
aligned_size k n size low e h =
    let l = align_to-IsLeast k n (omega arith) (omega arith) in
    let j = (pow_sixteen k low).0 in
    let unit : 2 ^ k ≡ j * 16 = (pow_sixteen k low).1 in
    let parts = div-add-mod' n (2 ^ k) in
    let above : (n / 2 ^ k + 1) * 2 ^ k ≡ n / 2 ^ k * 2 ^ k + 2 ^ k =
      add-mul (n / 2 ^ k) 1 (2 ^ k) ∙ omega arith in
    let rest = mod-lt n {m = 2 ^ k} (omega (arith, one-le-pow k 2)) in
    let least = l.2 (n / 2 ^ k + 1) (omega arith) in
    let size_parts = div-add-mod' size (2 ^ k) in
    let none_left : size % 2 ^ k ≡ 0 = rw e l.0 in
    let times : size / 2 ^ k * 2 ^ k ≡ size / 2 ^ k * j * 16 =
      ap (λ u. size / 2 ^ k * u) unit ∙ sym (mul_assoc (size / 2 ^ k) j 16) in
    let whole : size ≡ size / 2 ^ k * j * 16 = omega (arith, times) in
    (ap (λ x. x % 16) whole ∙ mul-mod_left (size / 2 ^ k * j) 16, omega (arith, l.1), omega arith)
