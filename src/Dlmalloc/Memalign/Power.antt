-- ===== src/Dlmalloc/Memalign/Power.antt =====
-- The alignment that internal_memalign uses.
use native.Mathlib.Nat.{pow-suc, one-le-pow, pow-le-pow_right, le_refl}
use native.Mathlib.Decide.{ℕ_discrete, dec_lt}
use mosalloc_rs.Base.{
  ℕ, zero, suc, ◌+◌, ◌-◌, ◌*◌, ◌^◌, ◌≤◌, ◌<◌, ◌≡◌, refl, arith, bit_and, if◌then◌else◌, ◌==◌, shl64,
  sub64, lt→ltb, le→ltb, Bool-cases, inl, inr, ==→eq,
}
use mosalloc_rs.Base.Bits.Powers.{IsPower, IsPower-and_pred}
use mosalloc_rs.Dlmalloc.State.{State, out_of_fuel, pure}
use mosalloc_rs.Dlmalloc.State.Returns.{Returns, returns, mono}
use mosalloc_rs.Dlmalloc.Sizes.{min_chunk_size, malloc_alignment}
use mosalloc_rs.Dlmalloc.Memalign.{double_until, fix_alignment}

-- The next power of two above 2^k is 2 * 2^k.
next_power : (k j : ℕ) → 2 ^ k < 2 ^ j → 2 * 2 ^ k ≤ 2 ^ j
next_power k zero h = absurd (omega (arith, one-le-pow k 2))
next_power zero (suc j) h = omega (arith, pow-suc 2 j, one-le-pow j 2)
next_power (suc k) (suc j) h =
    omega
      (arith, pow-suc 2 j, pow-suc 2 k, next_power k j (omega (arith, pow-suc 2 j, pow-suc 2 k)))

-- `a` is the least power of two that is at least 32 and at least the alignment.
pub record IsFit (alignment a : ℕ) : Type 0 where
  pub power : IsPower a
  pub minimal_chunk : min_chunk_size ≤ a
  pub enough : alignment ≤ a
  pub least : (j : ℕ) → min_chunk_size ≤ 2 ^ j → alignment ≤ 2 ^ j → a ≤ 2 ^ j

-- From 2^k on, no power that fits is passed over.
double_until-IsFit :
    (fuel alignment k : ℕ) (s : State)
    → alignment ≤ 2 ^ 63
    → 64 ≤ fuel + k
    → min_chunk_size ≤ 2 ^ k
    → ((j : ℕ) → min_chunk_size ≤ 2 ^ j → alignment ≤ 2 ^ j → 2 ^ k ≤ 2 ^ j)
    → Returns (λ a s'. IsFit alignment a × (s' ≡ s)) (double_until fuel alignment (2 ^ k) s)
unfolding double_until
double_until-IsFit zero alignment k s h enough low least =
    let past : 2 ^ 64 ≤ 2 ^ k =
      pow-le-pow_right {n = 2} (omega arith) {i = 64} {j = k} (omega arith) in
    absurd (omega (arith, least 63 (omega arith) h))
double_until-IsFit (suc fuel) alignment k s h enough low least = elim (dec_lt (2 ^ k) alignment) [
  | yes below ↦
      let twice : shl64 (2 ^ k) 1 ≡ 2 ^ suc k = omega (arith, pow-suc 2 k) in
      rw (lt→ltb (2 ^ k) alignment below, twice)
        (double_until-IsFit fuel alignment (suc k) s h (omega arith) (omega (arith, pow-suc 2 k))
          (λ j lj aj. omega (arith, pow-suc 2 k, next_power k j (omega arith))))
  | no above ↦ rw (le→ltb (2 ^ k) alignment (omega arith)) (
      returns (
        record { power = (k, refl); minimal_chunk = low; enough = omega arith; least = least },
        refl,
      ))
]

-- The rest of fix_alignment, for an alignment that is at least MIN_CHUNK_SIZE.
raised-IsFit :
    (a : ℕ) (s : State)
    → min_chunk_size ≤ a
    → a ≤ 2 ^ 63
    → Returns
        (λ r s'. IsFit a r × (s' ≡ s))
        ((if bit_and a (sub64 a 1) == 0
            then pure a
            else double_until 64 a (shl64 malloc_alignment 1))
          s)
raised-IsFit a s low h =
    let one : sub64 a 1 ≡ a - 1 = ground arith in
    elim (Bool-cases (bit_and a (a - 1) == 0)) [
      | inl e ↦
          rw (one, e)
            (returns (
              record {
                power =
                    IsPower-and_pred a a (le_refl _) (omega arith) (==→eq (bit_and a (a - 1)) 0 e);
                minimal_chunk = low;
                enough = le_refl _;
                least = λ j lj aj. aj;
              },
              refl,
            ))
      | inr e ↦
          rw (one, e) (double_until-IsFit 64 a 5 s h (omega arith) (omega arith) (λ j lj aj. lj))
    ]

IsFit-raised :
    (alignment a r : ℕ)
    → alignment ≤ a
    → ((j : ℕ) → min_chunk_size ≤ 2 ^ j → alignment ≤ 2 ^ j → a ≤ 2 ^ j)
    → IsFit a r
    → IsFit alignment r
IsFit-raised alignment a r le up fit = record {
  power = fit.power;
  minimal_chunk = fit.minimal_chunk;
  enough = omega (arith, fit.enough);
  least = λ j lj aj. fit.least j lj (up j lj aj);
}

-- For an alignment up to 2 ^ 63 the search for an alignment returns the least power of two that is
-- at least MIN_CHUNK_SIZE and at least the alignment asked for, and leaves the state: 64 rounds of
-- the loop are enough.
pub fix_alignment-IsFit :
    (alignment : ℕ) (s : State)
    → alignment ≤ 2 ^ 63
    → Returns (λ a s'. IsFit alignment a × (s' ≡ s)) (fix_alignment alignment s)
unfolding fix_alignment
fix_alignment-IsFit alignment s h = elim (dec_lt alignment min_chunk_size) [
  | yes low ↦ rw (lt→ltb alignment min_chunk_size low) (
      mono (raised-IsFit min_chunk_size s (omega arith) (omega arith)) (λ r s' q.
        (IsFit-raised alignment min_chunk_size r (omega arith) (λ j lj aj. lj) q.0, q.1)))
  | no high ↦
      rw (le→ltb alignment min_chunk_size (omega arith)) (raised-IsFit alignment s (omega arith) h)
]

-- The loop `while (a < alignment) a <<= 1` never ends on an alignment above 2^63: once the bit is
-- shifted out, `a` stays 0.
zero_loops :
    (fuel alignment : ℕ) (s : State) → 0 < alignment → double_until fuel alignment 0 s ≡ out_of_fuel
unfolding double_until
zero_loops zero alignment s h = refl
zero_loops (suc fuel) alignment s h = rw (lt→ltb 0 alignment h) (zero_loops fuel alignment s h)

-- On an alignment above 2 ^ 63 no number of rounds is enough for the loop that doubles `a`, from
-- whatever power of two up to 2 ^ 63 it starts.
pub double_until-diverges :
    (fuel alignment k : ℕ) (s : State)
    → 2 ^ 63 < alignment
    → k ≤ 63
    → double_until fuel alignment (2 ^ k) s ≡ out_of_fuel
unfolding double_until
double_until-diverges zero alignment k s h hk = refl
double_until-diverges (suc fuel) alignment k s h hk =
    let below : 2 ^ k ≤ 2 ^ 63 = pow-le-pow_right {n = 2} (omega arith) {i = k} {j = 63} hk in
    rw (lt→ltb (2 ^ k) alignment (omega arith)) (elim (ℕ_discrete k 63) [
      | yes last ↦
          let gone : shl64 (2 ^ k) 1 ≡ 0 = rw last refl in
          rw gone (zero_loops fuel alignment s (omega arith))
      | no more ↦
          let room : 2 ^ suc k ≤ 2 ^ 63 =
            pow-le-pow_right {n = 2} (omega arith) {i = suc k} {j = 63} (omega arith) in
          let twice : shl64 (2 ^ k) 1 ≡ 2 ^ suc k = omega (arith, pow-suc 2 k) in
          rw twice (double_until-diverges fuel alignment (suc k) s h (omega arith))
    ])
