-- ===== src/Dlmalloc/Index/Maps.antt =====
-- The search of a bin map: isolating the least bit and taking its index finds the first bin that
-- is marked (least_bit and compute_bit2idx of dlmalloc/dlmalloc.c).
use native.Mathlib.Decide.{ℕ_discrete}
use native.Mathlib.Nat.{pow-suc}
use mosalloc_rs.Base.{
  ℕ, zero, suc, ◌-◌, ◌*◌, ◌/◌, ◌%◌, ◌^◌, ◌<◌, bit_and, ◌≡◌, refl, ap, arith, neg32, eq→==, ne→==,
}
use mosalloc_rs.Base.Bits.{bit_and-half}
use mosalloc_rs.Base.Bits.Lowest.{bit_at, bit_at-suc, bit_and-complement}
use mosalloc_rs.Dlmalloc.Index.{lowest_bit, least_bit, compute_bit2idx}

-- Bit `k` of `x` is set, and no bit below it is.
pub record IsLowest (x k : ℕ) : Type 0 where
  pub set : bit_at x k ≡ 1
  pub clear : (j : ℕ) → j < k → bit_at x j ≡ 0

IsLowest-zero : (x : ℕ) → x % 2 ≡ 1 → IsLowest x 0
IsLowest-zero x odd = record { set = omega arith; clear = λ j h. elim h [ ] }

IsLowest-suc : (x k : ℕ) → x % 2 ≡ 0 → IsLowest (x / 2) k → IsLowest x (suc k)
IsLowest-suc x k even low = record { set = rw (bit_at-suc x k) low.set; clear = clear' }
  where
    clear' : (j : ℕ) → j < suc k → bit_at x j ≡ 0
    clear' zero h = omega arith
    clear' (suc j) h = rw (bit_at-suc x j) (low.clear j (omega arith))

-- x & -x in `w` bits, at an odd number and at an even one.
and_neg-odd : (w x : ℕ) → x < 2 ^ suc w → x % 2 ≡ 1 → bit_and x (2 ^ suc w - x) ≡ 1
and_neg-odd w x h odd = omega (
  arith,
  pow-suc 2 w,
  bit_and-half x (2 ^ suc w - x),
  bit_and-complement w (x / 2) ((2 ^ suc w - x) / 2) (omega (arith, pow-suc 2 w)),
)

and_neg-even :
    (w x : ℕ)
    → 0 < x
    → x < 2 ^ suc w
    → x % 2 ≡ 0
    → bit_and x (2 ^ suc w - x) ≡ 2 * bit_and (x / 2) (2 ^ w - x / 2)
and_neg-even w x pos h even =
    let half : (2 ^ suc w - x) / 2 ≡ 2 ^ w - x / 2 = omega (arith, pow-suc 2 w) in
    omega (arith, bit_and-half x (2 ^ suc w - x), ap (bit_and (x / 2)) half)

-- In `w` bits: x & -x is the power of two at the place of the lowest bit.
lowest_bit-IsLowest :
    (w x : ℕ)
    → 0 < x
    → x < 2 ^ w
    → (bit_and x (2 ^ w - x) ≡ 2 ^ lowest_bit w x)
      × (lowest_bit w x < w)
      × IsLowest x (lowest_bit w x)
unfolding lowest_bit
lowest_bit-IsLowest zero x pos h = absurd (omega arith)
lowest_bit-IsLowest (suc w) x pos h = elim (ℕ_discrete (x % 2) 1) [
  | yes odd ↦ rw (eq→== (x % 2) 1 odd) (and_neg-odd w x h odd, omega arith, IsLowest-zero x odd)
  | no even ↦
      let ih = lowest_bit-IsLowest w (x / 2) (omega arith) (omega (arith, pow-suc 2 w)) in
      rw (ne→== (x % 2) 1 even) (
        omega (arith, and_neg-even w x pos h (omega arith), ih.0, pow-suc 2 (lowest_bit w (x / 2))),
        omega (arith, ih.1),
        IsLowest-suc x (lowest_bit w (x / 2)) (omega arith) ih.2,
      )
]

lowest_bit-power : (w k : ℕ) → k < w → lowest_bit w (2 ^ k) ≡ k
unfolding lowest_bit
lowest_bit-power zero k h = elim h [ ]
lowest_bit-power (suc w) zero h = refl
lowest_bit-power (suc w) (suc k) h =
    let even : 2 ^ suc k % 2 ≡ 0 = omega (arith, pow-suc 2 k) in
    let half : 2 ^ suc k / 2 ≡ 2 ^ k = omega (arith, pow-suc 2 k) in
    rw (ne→== (2 ^ suc k % 2) 1 (omega arith), half, lowest_bit-power w k (omega arith)) refl

-- For a 32-bit bin map that is not empty, the index computed from its least bit is a bin below 32
-- that is marked, and no bin below that one is marked.
pub compute_bit2idx-IsLowest :
    (x : ℕ)
    → 0 < x
    → x < 2 ^ 32
    → (compute_bit2idx (least_bit x) < 32) × IsLowest x (compute_bit2idx (least_bit x))
unfolding compute_bit2idx least_bit
compute_bit2idx-IsLowest x pos h =
    let neg : neg32 x ≡ 2 ^ 32 - x = omega arith in
    let low = lowest_bit-IsLowest 32 x pos h in
    rw (neg, low.0, lowest_bit-power 32 (lowest_bit 32 x) low.1) (low.1, low.2)
