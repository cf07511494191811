-- ===== src/Base/Bits.antt =====
-- Laws of the bit operations, by recursion on binary digits: masks, powers of two, and the lowest
-- bit that is set.
pub mod Powers
pub mod Lowest
pub mod Masks
use Prim.Native.Nat.{
  ℕ, zero, suc, ◌+◌, ◌-◌, ◌*◌, ◌/◌, ◌%◌, ◌^◌, ◌≤◌, ◌<◌, min, max, bit_and, bit_or, digits, bitwise,
  bit_and-bitwise, bit_or-bitwise,
}
use mathlib.Core.Path.{◌≡◌, refl, ap}
use native.Mathlib.Nat.{le_refl, pow-suc, one-le-pow}
use native.Mathlib.Omega.{arith}

module _ (z : ℕ → ℕ) (f : ℕ → ℕ → ℕ) where
  -- Any two counts of digits that reach the first number give the same result.
  digits_count : (m n a b : ℕ) → a ≤ m → a ≤ n → digits z f m a b ≡ digits z f n a b
  digits_count zero zero a b hm hn = refl
  digits_count (suc m) zero zero b hm hn = refl
  digits_count zero (suc n) zero b hm hn = refl
  digits_count (suc m) (suc n) zero b hm hn = refl
  digits_count zero n (suc a) b hm hn = absurd (omega arith)
  digits_count (suc m) zero (suc a) b hm hn = absurd (omega arith)
  digits_count (suc m) (suc n) (suc a) b hm hn =
      ap (λ (d : ℕ). d * 2 + f (suc a % 2) (b % 2))
        (digits_count m n (suc a / 2) (b / 2) (omega arith) (omega arith))

  bitwise-half :
      (a b : ℕ)
      → bitwise z f (suc a) b ≡ bitwise z f (suc a / 2) (b / 2) * 2 + f (suc a % 2) (b % 2)
  bitwise-half a b =
      ap (λ (d : ℕ). d * 2 + f (suc a % 2) (b % 2))
        (digits_count a (suc a / 2) (suc a / 2) (b / 2) (omega arith) (le_refl _))

-- One digit at a time.
pub bit_and-half : (a b : ℕ) → bit_and a b ≡ bit_and (a / 2) (b / 2) * 2 + min (a % 2) (b % 2)
bit_and-half zero b = simp bit_and-bitwise (omega arith)
bit_and-half (suc a) b = simp bit_and-bitwise (bitwise-half (λ d. 0) min a b)

pub bit_or-half : (a b : ℕ) → bit_or a b ≡ bit_or (a / 2) (b / 2) * 2 + max (a % 2) (b % 2)
bit_or-half zero b = simp bit_or-bitwise (omega arith)
bit_or-half (suc a) b = simp bit_or-bitwise (bitwise-half (λ d. d) max a b)

-- The proofs below go down by halves, on a bound `n` of the number.
pub bit_and-le : (n a b : ℕ) → a ≤ n → bit_and a b ≤ a
bit_and-le n zero b h = rw (bit_and-bitwise 0 b) (omega arith)
bit_and-le zero (suc a) b h = absurd (omega arith)
bit_and-le (suc n) (suc a) b h =
    omega (arith, bit_and-half (suc a) b, bit_and-le n (suc a / 2) (b / 2) (omega arith))

bit_and_self : (n a : ℕ) → a ≤ n → bit_and a a ≡ a
bit_and_self n zero h = refl
bit_and_self zero (suc a) h = absurd (omega arith)
bit_and_self (suc n) (suc a) h =
    omega (arith, bit_and-half (suc a) (suc a), bit_and_self n (suc a / 2) (omega arith))

double_pow : (q k : ℕ) → q * 2 ^ suc k ≡ 2 * (q * 2 ^ k)
double_pow q k = omega (arith, ap (λ (t : ℕ). q * t) (pow-suc 2 k))

-- x & (2^k - 1), for x split at bit k.
bit_and-fields : (k q r : ℕ) → r < 2 ^ k → bit_and (q * 2 ^ k + r) (2 ^ k - 1) ≡ r
bit_and-fields zero q r h =
    omega (arith, bit_and-half (q * 1 + r) 0, bit_and-zero (q * 1 + r) (q * 1 + r) (le_refl _))
  where
    bit_and-zero : (n a : ℕ) → a ≤ n → bit_and a 0 ≡ 0
    bit_and-zero n zero l = refl
    bit_and-zero zero (suc a) l = absurd (omega arith)
    bit_and-zero (suc n) (suc a) l =
        omega (arith, bit_and-half (suc a) 0, bit_and-zero n (suc a / 2) (omega arith))
bit_and-fields (suc k) q r h = ground (
  arith,
  bit_and-half (q * 2 ^ suc k + r) (2 ^ suc k - 1),
  double_pow q k,
  pow-suc 2 k,
  one-le-pow k 2,
  bit_and-fields k q (r / 2) (omega (arith, pow-suc 2 k)),
)

-- A mask of `k` low bits keeps the remainder by 2 ^ k.
pub bit_and-mask : (k a : ℕ) → bit_and a (2 ^ k - 1) ≡ a % 2 ^ k
bit_and-mask k a = ground (arith, one-le-pow k 2, bit_and-fields k (a / 2 ^ k) (a % 2 ^ k))
