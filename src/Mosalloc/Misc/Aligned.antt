-- ===== src/Mosalloc/Misc/Aligned.antt =====
-- Alignment to a power of two.
use native.Mathlib.Nat.{one-le-pow, mod-lt, div-add-mod', mul-mod_left, add-mod_right}
use native.Mathlib.Decide.{ℕ_discrete}
use mosalloc_rs.Base.{
  ℕ, ◌+◌, ◌-◌, ◌*◌, ◌/◌, ◌%◌, ◌^◌, ◌≤◌, ◌<◌, ◌≡◌, refl, ap, ◌∙◌, arith, true, if◌then◌else◌, ◌==◌,
  add64, sub64, ne→==, eq→==,
}
use mosalloc_rs.Base.Bits.Powers.{and_pred-power}
use mosalloc_rs.Base.Bits.Masks.{and_not-mask}
use mosalloc_rs.Mosalloc.System.{Sys, ok}
use mosalloc_rs.Mosalloc.Misc.{is_power_of_two, align_up, align_down}

-- The number is a power of two, at most 2 ^ 30.
pub record IsPage (p : ℕ) : Type 0 where
  pub power : ℕ
  pub value : p ≡ 2 ^ power
  pub small : p ≤ 2 ^ 30

pub multiple_below : (n m : ℕ) → (n - n % m) % m ≡ 0
multiple_below n m =
    let parts = div-add-mod' n m in
    let whole : n - n % m ≡ n / m * m = omega arith in rw whole (mul-mod_left (n / m) m)

module _ (k : ℕ) (small : 2 ^ k ≤ 2 ^ 30) where
  pub power_passes : is_power_of_two (2 ^ k) ≡ true
  power_passes =
      let pos = one-le-pow k 2 (omega arith) in
      let pred : sub64 (2 ^ k) 1 ≡ 2 ^ k - 1 = omega arith in
      rw (ne→== (2 ^ k) 0 (omega arith), pred, and_pred-power k) refl

  pub align_down-power : (n : ℕ) (s : Sys) → align_down n (2 ^ k) s ≡ ok (n - n % 2 ^ k) s
  unfolding align_down
  align_down-power n s = rw (power_passes, and_not-mask k n (omega arith)) refl

  -- The least multiple of the unit that is not below `n`.
  abbrev pub round : ℕ → ℕ
  round n = if n % 2 ^ k == 0 then n else n - n % 2 ^ k + 2 ^ k

  pub align_up-power :
      (n : ℕ) (s : Sys) → n + 2 ^ k ≤ 2 ^ 64 → align_up n (2 ^ k) s ≡ ok (round n) s
  unfolding align_up
  align_up-power n s room =
      let pos = one-le-pow k 2 (omega arith) in
      let rem = mod-lt n {m = 2 ^ k} (omega arith) in
      elim (ℕ_discrete (n % 2 ^ k) 0) [
        | yes e ↦
            rw
              (
                power_passes,
                and_not-mask k n (omega arith),
                eq→== (n - n % 2 ^ k) n (omega arith),
                eq→== (n % 2 ^ k) 0 e,
              )
              (ap (λ x. ok x s) (omega arith))
        | no e ↦
            let sum : add64 (n - n % 2 ^ k) (2 ^ k) ≡ n - n % 2 ^ k + 2 ^ k = omega arith in
            rw
              (
                power_passes,
                and_not-mask k n (omega arith),
                ne→== (n - n % 2 ^ k) n (omega arith),
                ne→== (n % 2 ^ k) 0 e,
                sum,
              )
              refl
      ]

-- Rounding up gives a multiple, less than one unit further.
pub round-mod : (k : ℕ) (small : 2 ^ k ≤ 2 ^ 30) (n : ℕ) → round k small n % 2 ^ k ≡ 0
round-mod k small n = elim (ℕ_discrete (n % 2 ^ k) 0) [
  | yes e ↦ rw (eq→== (n % 2 ^ k) 0 e) e
  | no e ↦
      rw (ne→== (n % 2 ^ k) 0 e) (add-mod_right (n - n % 2 ^ k) (2 ^ k) ∙ multiple_below n (2 ^ k))
]

pub round_bounds :
    (k : ℕ) (small : 2 ^ k ≤ 2 ^ 30) (n : ℕ) → (n ≤ round k small n) × (round k small n < n + 2 ^ k)
round_bounds k small n =
    let rem = mod-lt n {m = 2 ^ k} (omega (arith, one-le-pow k 2)) in
    elim (ℕ_discrete (n % 2 ^ k) 0) [
      | yes e ↦ rw (eq→== (n % 2 ^ k) 0 e) (omega arith, omega arith)
      | no e ↦ rw (ne→== (n % 2 ^ k) 0 e) (omega arith, omega arith)
    ]

-- Sizes are rounded up to pages of PAGE_SIZE bytes.
abbrev pub page_round : ℕ → ℕ
page_round n = if n % 4096 == 0 then n else n - n % 4096 + 4096

pub align_up-page : (n : ℕ) (s : Sys) → n + 4096 ≤ 2 ^ 64 → align_up n 4096 s ≡ ok (page_round n) s
align_up-page n s room = align_up-power 12 (omega arith) n s room
