-- ===== src/Mosalloc/Internal/Blocks.antt =====
-- The blocks of the arena that are in use.
use native.Mathlib.Nat.{div-add-mod', mul-mod_left, pow-suc, mul_comm, mul_assoc, add-mod, zero-mod}
use mathlib.Core.Path.{subst}
use mosalloc_rs.Base.{
  ℕ, zero, suc, ◌+◌, ◌-◌, ◌*◌, ◌/◌, ◌%◌, ◌^◌, ◌≤◌, ◌<◌, ◌≡◌, sym, ap, ◌∙◌, ◌⊎◌, inl, inr, arith,
  List, [], ◌∷◌, ◌++◌, All, All-append, split-All,
}
use mosalloc_rs.Mosalloc.FreeMap.{Range}
use mosalloc_rs.Mosalloc.Internal.{InternalAllocator, arena_size}

abbrev pub AreApart : Range → Range → Type 0
AreApart b c = (b.end ≤ c.start) ⊎ (c.end ≤ b.start)

abbrev pub AllApart : List Range → Type 0
AllApart [] = Unit
AllApart (b ∷ bs) = All (AreApart b) bs × AllApart bs

-- Not empty, in the part of the arena below `idx`.
abbrev pub IsInside : InternalAllocator → Range → Type 0
IsInside a b = (a.arena ≤ b.start) × (b.start < b.end) × (b.end ≤ a.arena + a.idx)

-- The arena is aligned as the static is, ends below the end of memory, and the blocks in use lie in
-- it without overlap.
pub record IsArena (a : InternalAllocator) (bs : List Range) : Type 0 where
  pub aligned : a.arena % 4096 ≡ 0
  pub base : 0 < a.arena
  pub bound : a.arena + 2 ^ 20 ≤ 2 ^ 64
  pub top : a.idx ≤ arena_size
  pub blocks : All (IsInside a) bs
  pub disjoint : AllApart bs

swap-AreApart : (b c : Range) → AreApart b c → AreApart c b
swap-AreApart b c (inl h) = inr h
swap-AreApart b c (inr h) = inl h

-- One of the blocks against the others.
pub AllApart-append :
    (xs : List Range) (b : Range) (ys : List Range)
    → AllApart (xs ++ b ∷ ys)
    → All (AreApart b) (xs ++ ys) × AllApart (xs ++ ys)
AllApart-append [] b ys h = h
AllApart-append (x ∷ xs) b ys h =
    let parts = split-All (AreApart x) xs (b ∷ ys) h.0 in
    let rest = AllApart-append xs b ys h.1 in
    (
      (swap-AreApart x b parts.1.0, rest.0),
      (All-append (AreApart x) xs ys parts.0 parts.1.1, rest.1),
    )

pub All-without :
    (P : Range → Type 0) (xs : List Range) (b : Range) (ys : List Range)
    → All P (xs ++ b ∷ ys)
    → P b × All P (xs ++ ys)
All-without P xs b ys h =
    let parts = split-All P xs (b ∷ ys) h in (parts.1.0, All-append P xs ys parts.0 parts.1.1)

-- A multiple of 4096 is one of each smaller power of two.
power_divides : (d k n : ℕ) → d + k ≡ 12 → n % 4096 ≡ 0 → n % 2 ^ k ≡ 0
power_divides zero k n h e = let twelve : k ≡ 12 = omega arith in rw twelve e
power_divides (suc d) k n h e =
    let parts = div-add-mod' n (2 ^ suc k) in
    let rest = power_divides d (suc k) n (omega arith) e in
    let q = n / 2 ^ suc k in
    let double : q * 2 ^ suc k ≡ q * 2 * 2 ^ k =
      ap (λ (z : ℕ). q * z) (pow-suc 2 k ∙ mul_comm (2 ^ k) 2) ∙ sym (mul_assoc q 2 (2 ^ k)) in
    let whole : n ≡ q * 2 * 2 ^ k = sym parts ∙ omega arith ∙ double in
    subst (λ (z : ℕ). z % 2 ^ k ≡ 0) (sym whole) (mul-mod_left (q * 2) (2 ^ k))

-- What an aligned offset gives in an arena that is aligned to pages.
pub offset_aligned :
    (k base n : ℕ) → k ≤ 12 → base % 4096 ≡ 0 → n % 2 ^ k ≡ 0 → (base + n) % 2 ^ k ≡ 0
offset_aligned k base n h e f =
    rw (add-mod base n (2 ^ k), power_divides (12 - k) k base (omega arith) e, f) (zero-mod (2 ^ k))
