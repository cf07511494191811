-- ===== src/Base/Bits/Masks.antt =====
-- The complement of a mask of low bits.
use Prim.Native.Nat.{ℕ, ◌-◌, ◌%◌, ◌^◌, ◌<◌}
use mathlib.Core.Path.{◌≡◌, refl}
use native.Mathlib.Nat.{one-le-pow}
use native.Mathlib.Omega.{arith}
use mosalloc_rs.Base.Words.{sub64, and_not}
use mosalloc_rs.Base.Bits.{bit_and-mask}

-- With a unit of 2^k the bits below the unit are cleared.
pub and_not-mask : (k a : ℕ) → 2 ^ k < 2 ^ 64 → and_not a (sub64 (2 ^ k) 1) ≡ a - a % 2 ^ k
and_not-mask k a h =
    let mask : sub64 (2 ^ k) 1 ≡ 2 ^ k - 1 = omega (arith, one-le-pow k 2) in
    rw (mask, bit_and-mask k a) refl
