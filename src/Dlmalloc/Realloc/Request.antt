-- ===== src/Dlmalloc/Realloc/Request.antt =====
-- The overflow check of dlcalloc (dlmalloc/dlmalloc.c).
use native.Mathlib.Nat.{mul-le-mul, mul-div-le, mul-div_cancel_left, mod-eq_of_lt, mod-lt}
use native.Mathlib.Decide.{dec_lt}
use mosalloc_rs.Base.{
  ℕ, zero, suc, ◌*◌, ◌/◌, ◌%◌, ◌^◌, ◌≤◌, ◌<◌, ◌≡◌, ◌≢◌, refl, ap, arith, bit_or, if◌then◌else◌, leb,
  max_size_t, mul64, ne→==, eq→==, lt→ltb,
}
use mosalloc_rs.Base.Bits.Powers.{le-bit_or}
use mosalloc_rs.Dlmalloc.Realloc.{calloc_request}

-- A product that does not fit has a factor above 0xffff.
wide_factor : (n e : ℕ) → n < 2 ^ 64 → e < 2 ^ 64 → max_size_t < n * e → 65535 < bit_or n e
wide_factor n e hn he h = elim (dec_lt 65535 (bit_or n e)) [
  | yes wide ↦ wide
  | no low ↦
      let both = le-bit_or (2 ^ 64) n e (omega arith) (omega arith) in
      let small : n * e ≤ 65535 * 65535 =
        mul-le-mul {n₂ = 65535} {m₂ = 65535} (omega (arith, both.0)) (omega (arith, both.1)) in
      absurd (omega arith)
]

-- Dividing the wrapped product by a factor does not give the other factor back.
not_divided : (n e : ℕ) → max_size_t < suc n * e → mul64 (suc n) e / suc n ≢ e
not_divided n e h q =
    let back = mul-div-le (mul64 (suc n) e) (suc n) in
    let all = ap (λ (d : ℕ). suc n * d) q in
    let below = mod-lt (suc n * e) {m = 2 ^ 64} (omega arith) in absurd (omega arith)

-- For two `size_t` the number of bytes that calloc requests is their product or, if the product is
-- above MAX_SIZE_T, MAX_SIZE_T.
pub calloc_request-exact :
    (n e : ℕ)
    → n < 2 ^ 64
    → e < 2 ^ 64
    → calloc_request n e ≡ (if leb (n * e) max_size_t then n * e else max_size_t)
unfolding calloc_request
calloc_request-exact zero e hn he = let z : 0 * e ≡ 0 = omega arith in rw z refl
calloc_request-exact (suc n) e hn he = elim (dec_lt (suc n * e) (2 ^ 64)) [
  | yes fits ↦
      let r : suc n * e % 2 ^ 64 ≡ suc n * e = mod-eq_of_lt fits in
      rw (r, eq→== (suc n * e / suc n) e (mul-div_cancel_left e (omega arith))) (ground arith)
  | no over ↦
      rw
        (
          lt→ltb 65535 (bit_or (suc n) e) (wide_factor (suc n) e hn he (omega arith)),
          ne→== (mul64 (suc n) e / suc n) e (not_divided n e (omega arith)),
        )
        (ground arith)
]
