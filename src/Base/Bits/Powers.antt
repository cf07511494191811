-- ===== src/Base/Bits/Powers.antt =====
-- The test for a power of two, and bounds of a bitwise or.
use native.Mathlib.Nat.{le_refl, pow-suc, one-le-pow}
use native.Mathlib.Decide.{ℕ_discrete}
use mosalloc_rs.Base.{
  ℕ, zero, suc, ◌-◌, ◌*◌, ◌/◌, ◌%◌, ◌^◌, ◌≤◌, ◌<◌, bit_and, bit_or, ◌≡◌, refl, ap, arith,
}
use mosalloc_rs.Base.Bits.{bit_and-half, bit_or-half, bit_and_self}

abbrev pub IsPower : ℕ → Type 0
IsPower v = (k : ℕ) × (v ≡ 2 ^ k)

IsPower-double : (v : ℕ) → v % 2 ≡ 0 → IsPower (v / 2) → IsPower v
IsPower-double v e (k, p) = (suc k, omega (arith, pow-suc 2 k))

-- v & (v - 1), at an even and at an odd number.
and_pred-even : (v : ℕ) → 0 < v → v % 2 ≡ 0 → bit_and v (v - 1) ≡ 2 * bit_and (v / 2) (v / 2 - 1)
and_pred-even v pos e =
    let half : (v - 1) / 2 ≡ v / 2 - 1 = omega arith in
    omega (arith, bit_and-half v (v - 1), ap (bit_and (v / 2)) half)

and_pred-odd : (v : ℕ) → v % 2 ≡ 1 → bit_and v (v - 1) ≡ v - 1
and_pred-odd v e =
    let half : (v - 1) / 2 ≡ v / 2 = omega arith in
    omega (
      arith,
      bit_and-half v (v - 1),
      ap (bit_and (v / 2)) half,
      bit_and_self (v / 2) (v / 2) (le_refl _),
    )

-- A positive number that shares no bit with its predecessor is a power of two.
pub IsPower-and_pred : (n v : ℕ) → v ≤ n → 0 < v → bit_and v (v - 1) ≡ 0 → IsPower v
IsPower-and_pred zero v h pos e = absurd (omega arith)
IsPower-and_pred (suc n) v h pos e = elim (ℕ_discrete (v % 2) 0) [
  | yes even ↦ IsPower-double v even (
      IsPower-and_pred n (v / 2) (omega arith) (omega arith)
        (omega (arith, and_pred-even v pos even)))
  | no odd ↦ (0, omega (arith, and_pred-odd v (omega arith)))
]

-- A power of two shares no bit with its predecessor.
pub and_pred-power : (k : ℕ) → bit_and (2 ^ k) (2 ^ k - 1) ≡ 0
and_pred-power zero = refl
and_pred-power (suc k) =
    let half : 2 ^ suc k / 2 ≡ 2 ^ k = omega (arith, pow-suc 2 k) in
    omega (
      arith,
      pow-suc 2 k,
      one-le-pow k 2,
      and_pred-even (2 ^ suc k) (omega (arith, pow-suc 2 k, one-le-pow k 2 (omega arith)))
          (omega (arith, pow-suc 2 k)),
      ap (λ (t : ℕ). bit_and t (t - 1)) half,
      and_pred-power k,
    )

-- Both numbers are at most their bitwise or.
pub le-bit_or : (n a b : ℕ) → a ≤ n → b ≤ n → (a ≤ bit_or a b) × (b ≤ bit_or a b)
le-bit_or zero a b ha hb = (omega arith, omega arith)
le-bit_or (suc n) a b ha hb =
    omega (arith, bit_or-half a b, le-bit_or n (a / 2) (b / 2) (omega arith) (omega arith))

-- A bitwise or needs no more digits than the longer of the two.
pub bit_or-lt : (k a b : ℕ) → a < 2 ^ k → b < 2 ^ k → bit_or a b < 2 ^ k
bit_or-lt zero a b ha hb =
    let za : a ≡ 0 = omega arith in let zb : b ≡ 0 = omega arith in rw (za, zb) (omega arith)
bit_or-lt (suc k) a b ha hb =
    let ih =
      bit_or-lt k (a / 2) (b / 2) (omega (arith, pow-suc 2 k)) (omega (arith, pow-suc 2 k)) in
    omega (arith, bit_or-half a b, pow-suc 2 k)
