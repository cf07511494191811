-- ===== src/Dlmalloc/Params/Tunable.antt =====
-- mallopt: which granularities are accepted (change_mparam).
use native.Mathlib.Nat.{le_refl}
use mosalloc_rs.Base.{
  ℕ, ◌-◌, ◌^◌, ◌≤◌, ◌<◌, ◌≡◌, ◌≢◌, refl, ◌⊎◌, inl, inr, arith, bit_and, sub64, ◌==◌, leb, ◌&&◌,
  true, false, Bool-cases, ne→==, ==→eq,
}
use mosalloc_rs.Base.Bits.Powers.{IsPower, IsPower-and_pred, and_pred-power}
use mosalloc_rs.Dlmalloc.State.{State}
use mosalloc_rs.Dlmalloc.State.Returns.{Returns, returns}
use mosalloc_rs.Dlmalloc.Params.{change_mparam, m_granularity, size_of_int}

-- A granularity that serves: a power of two that is not below the page size.
abbrev pub Serves : ℕ → ℕ → Type 0
Serves page v = IsPower v × (page ≤ v)

size_of_int-bound : (v : ℕ) → v < 2 ^ 32 → size_of_int v < 2 ^ 64
size_of_int-bound v h = ground arith

power_test : (x : ℕ) → IsPower x → ¬ ((bit_and x (x - 1) == 0) ≡ false)
power_test x (k, e) h =
    let z : bit_and x (x - 1) ≡ 0 = rw e (and_pred-power k) in absurd (ground arith)

-- The test of the code for a value `x` decides whether it serves.
test-Serves :
    (page x : ℕ)
    → 0 < page
    → x < 2 ^ 64
    → ((leb page x && (bit_and x (sub64 x 1) == 0)) ≡ true × Serves page x)
      ⊎ ((leb page x && (bit_and x (sub64 x 1) == 0)) ≡ false × ¬ Serves page x)
test-Serves page x pos h = elim (Bool-cases (leb page x)) [
  | inr low ↦ inr (rw low refl, λ g. absurd (ground arith))
  | inl high ↦
      let one : sub64 x 1 ≡ x - 1 = ground arith in
      rw (high, one)
        (elim (Bool-cases (bit_and x (x - 1) == 0)) [
          | inl e ↦ inl (
            e,
            (
              IsPower-and_pred x x (le_refl _) (ground arith) (==→eq (bit_and x (x - 1)) 0 e),
              ground arith,
            ),
          )
          | inr e ↦ inr (e, λ g. power_test x g.0 e)
        ])
]

-- In an initialised state with a positive page size, the parameter M_GRANULARITY is accepted, with
-- result 1, exactly if the value as a `size_t` is a power of two and not below the page size. Then
-- the granularity is set and nothing else; otherwise the result is 0 and the state unchanged.
pub change_mparam-granularity :
    (s : State) (v : ℕ)
    → v < 2 ^ 32
    → s.mparams.magic ≢ 0
    → 0 < s.mparams.page_size
    → Returns
        (λ r s'.
          ((r ≡ 1)
            × Serves s.mparams.page_size (size_of_int v)
            × (s' ≡ record s { mparams = record (s.mparams) { granularity = size_of_int v } }))
          ⊎ ((r ≡ 0) × (¬ Serves s.mparams.page_size (size_of_int v)) × (s' ≡ s)))
        (change_mparam m_granularity v s)
unfolding change_mparam
change_mparam-granularity s v h init pos =
    rw (ne→== s.mparams.magic 0 init)
      (elim (test-Serves s.mparams.page_size (size_of_int v) pos (size_of_int-bound v h)) [
        | inl good ↦ rw good.0 (returns (inl (refl, good.1, refl)))
        | inr bad ↦ rw bad.0 (returns (inr (refl, bad.1, refl)))
      ])
