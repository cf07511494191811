-- ===== src/Dlmalloc/Realloc/Bytes.antt =====
-- The bytes of the memory that memset clears; the low byte of a word comes first.
use native.Mathlib.Nat.{
  one-le-pow, pow-suc, mul_assoc, mul_comm, mul-one, mul-mod_left, div-add-mod', zero-div,
  mul-div_cancel, div-div-eq-div-mul,
}
use mosalloc_rs.Base.{
  ℕ, zero, suc, ◌+◌, ◌-◌, ◌*◌, ◌/◌, ◌%◌, ◌^◌, ◌≤◌, ◌<◌, ◌≡◌, refl, sym, ap, ◌∙◌, arith, true, ◌==◌,
  le→leb, lt→leb, lt→ltb, le→ltb, eq→==,
}
use native.Mathlib.Decide.{dec_lt}
use mosalloc_rs.Dlmalloc.State.{Mem}
use mosalloc_rs.Dlmalloc.Realloc.{zeroed}

abbrev pub byte_of : ℕ → ℕ → ℕ
byte_of j v = v / 2 ^ (8 * j) % 256

-- The byte `i` of the memory from the word at `p` on.
abbrev pub byte_at : Mem → ℕ → ℕ → ℕ
byte_at m p i = byte_of (i % 8) (m (p + 8 * (i / 8)))

pow_sum : (a b : ℕ) → 2 ^ (a + b) ≡ 2 ^ a * 2 ^ b
pow_sum a zero =
    let sum : a + 0 ≡ a = omega arith in ap (λ (z : ℕ). 2 ^ z) sum ∙ sym (mul-one (2 ^ a))
pow_sum a (suc b) =
    let sum : a + suc b ≡ suc (a + b) = omega arith in
    ap (λ (z : ℕ). 2 ^ z) sum
    ∙ pow-suc 2 (a + b)
    ∙ ap (λ (z : ℕ). z * 2) (pow_sum a b)
    ∙ mul_assoc (2 ^ a) (2 ^ b) 2
    ∙ ap (λ (z : ℕ). 2 ^ a * z) (sym (pow-suc 2 b))

module _ (j r v : ℕ) where
  -- The lowest `r` bytes of a word removed: a multiple of their power.
  multiple : v - v % 2 ^ (8 * r) ≡ v / 2 ^ (8 * r) * 2 ^ (8 * r)
  multiple = omega (arith, div-add-mod' v (2 ^ (8 * r)))

  low_byte : j < r → byte_of j (v - v % 2 ^ (8 * r)) ≡ 0
  low_byte h =
      let q = v / 2 ^ (8 * r) in
      let a = 2 ^ (8 * j) in
      let b = 2 ^ (8 * (r - suc j)) in
      let exponent : 8 * r ≡ 8 * j + (8 * (r - suc j) + 8) = omega arith in
      let power : 2 ^ (8 * r) ≡ a * (b * 256) =
        ap (λ (z : ℕ). 2 ^ z) exponent
        ∙ pow_sum (8 * j) (8 * (r - suc j) + 8)
        ∙ ap (λ (z : ℕ). a * z) (pow_sum (8 * (r - suc j)) 8) in
      let whole : v - v % 2 ^ (8 * r) ≡ q * b * 256 * a =
        multiple
        ∙ ap (λ (z : ℕ). q * z) (power ∙ mul_comm a (b * 256))
        ∙ sym (mul_assoc q (b * 256) a)
        ∙ ap (λ (z : ℕ). z * a) (sym (mul_assoc q b 256)) in
      ap (λ (z : ℕ). z / a % 256) whole
      ∙ ap (λ (z : ℕ). z % 256)
          (mul-div_cancel (q * b * 256) {n = a} (one-le-pow (8 * j) 2 (omega arith)))
      ∙ mul-mod_left (q * b) 256

  high_byte : r ≤ j → byte_of j (v - v % 2 ^ (8 * r)) ≡ byte_of j v
  high_byte h =
      let q = v / 2 ^ (8 * r) in
      let a = 2 ^ (8 * r) in
      let k = 2 ^ (8 * (j - r)) in
      let exponent : 8 * j ≡ 8 * r + 8 * (j - r) = omega arith in
      let power : 2 ^ (8 * j) ≡ a * k =
        ap (λ (z : ℕ). 2 ^ z) exponent ∙ pow_sum (8 * r) (8 * (j - r)) in
      let cut : (q * a) / (a * k) ≡ q / k =
        sym (div-div-eq-div-mul (q * a) a k)
        ∙ ap (λ (z : ℕ). z / k) (mul-div_cancel q {n = a} (one-le-pow (8 * r) 2 (omega arith))) in
      let same : (v - v % a) / 2 ^ (8 * j) ≡ v / 2 ^ (8 * j) =
        ap (λ (z : ℕ). z / 2 ^ (8 * j)) multiple
        ∙ ap (λ (z : ℕ). q * a / z) power
        ∙ cut
        ∙ div-div-eq-div-mul v a k
        ∙ ap (λ (z : ℕ). v / z) (sym power) in
      ap (λ (z : ℕ). z % 256) same

zero_byte : (j : ℕ) → byte_of j 0 ≡ 0
zero_byte j = ap (λ (z : ℕ). z % 256) (zero-div (2 ^ (8 * j)))

module _ (a n : ℕ) (m : Mem) (i : ℕ) where
  abbrev word : ℕ
  word = a + 8 * (i / 8)

  in_step : ((word - a) % 8 == 0) ≡ true
  in_step = eq→== ((word - a) % 8) 0 (omega arith)

  -- A word that the end of the cleared range cuts.
  last_word :
      word < a + n
      → a + n < word + 8
      → zeroed a n m word ≡ m word - m word % 2 ^ (8 * (a + n - word))
  last_word before cut =
      rw
        (
          le→leb a word (omega arith),
          lt→ltb word (a + n) before,
          in_step,
          lt→leb (word + 8) (a + n) cut,
        )
        refl

  pub zeroed-byte : i < n → byte_at (zeroed a n m) a i ≡ 0
  zeroed-byte h = elim (dec_lt (a + n) (word + 8)) [
    | yes cut ↦
        ap (byte_of (i % 8)) (last_word (omega arith) cut)
        ∙ low_byte (i % 8) (a + n - word) (m word) (omega arith)
    | no whole ↦
        rw
          (
            le→leb a word (omega arith),
            lt→ltb word (a + n) (omega arith),
            in_step,
            le→leb (word + 8) (a + n) (omega arith),
          )
          (zero_byte (i % 8))
  ]

  pub zeroed-byte_behind : n ≤ i → byte_at (zeroed a n m) a i ≡ byte_at m a i
  zeroed-byte_behind h = elim (dec_lt word (a + n)) [
    | yes before ↦
        ap (byte_of (i % 8)) (last_word before (omega arith))
        ∙ high_byte (i % 8) (a + n - word) (m word) (omega arith)
    | no behind ↦ rw (le→leb a word (omega arith), le→ltb word (a + n) (omega arith)) refl
  ]
