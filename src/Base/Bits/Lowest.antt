-- ===== src/Base/Bits/Lowest.antt =====
-- The lowest bit that is set, by x & -x, and the positions of bits.
use native.Mathlib.Nat.{pow-suc, pow-succ', one-le-pow, div-div-eq-div-mul}
use mosalloc_rs.Base.{ℕ, zero, suc, ◌+◌, ◌-◌, ◌/◌, ◌%◌, ◌^◌, bit_and, ◌≡◌, refl, arith}
use mosalloc_rs.Base.Bits.{bit_and-half}

-- The digit of `x` at place `i`.
abbrev pub bit_at : ℕ → ℕ → ℕ
bit_at x i = x / 2 ^ i % 2

pub bit_at-suc : (x i : ℕ) → bit_at x (suc i) ≡ bit_at (x / 2) i
bit_at-suc x i = rw (pow-succ' 2 i, ← div-div-eq-div-mul x 2 (2 ^ i)) refl

-- A number shares no bit with its complement in `w` bits.
pub bit_and-complement : (w x y : ℕ) → x + y ≡ 2 ^ w - 1 → bit_and x y ≡ 0
bit_and-complement zero x y e =
    let zx : x ≡ 0 = omega arith in let zy : y ≡ 0 = omega arith in rw (zx, zy) refl
bit_and-complement (suc w) x y e = omega (
  arith,
  bit_and-half x y,
  bit_and-complement w (x / 2) (y / 2) (omega (arith, pow-suc 2 w, one-le-pow w 2 (omega arith))),
  pow-suc 2 w,
  one-le-pow w 2,
)
