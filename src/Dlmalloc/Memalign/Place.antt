-- ===== src/Dlmalloc/Memalign/Place.antt =====
-- Where internal_memalign puts the chunk.
use native.Mathlib.Nat.{one-le-pow, pow-le-pow_right, add-mod_right}
use native.Mathlib.Decide.{dec_lt}
use mosalloc_rs.Base.{
  ℕ, ◌+◌, ◌-◌, ◌*◌, ◌%◌, ◌^◌, ◌≤◌, ◌<◌, ◌≡◌, arith, if◌then◌else◌, leb, sub64, add64, le→leb,
  lt→leb,
}
use mosalloc_rs.Base.Bits.Masks.{and_not-mask}
use mosalloc_rs.Dlmalloc.Params.Align.{round_up}
use mosalloc_rs.Dlmalloc.Sizes.{mem2chunk, min_chunk_size}
use mosalloc_rs.Dlmalloc.Memalign.{aligned_pos}

-- The choice between the two places, `r` being the aligned memory at or behind that of `p`.
place_at :
    (u p r : ℕ)
    → 32 ≤ u
    → r % u ≡ 0
    → p + 16 ≤ r
    → r < p + 16 + u
    → p + 2 * u + 64 < 2 ^ 64
    → (((if leb min_chunk_size (sub64 (sub64 r 16) p) then sub64 r 16 else add64 (sub64 r 16) u)
            + 16)
          % u
        ≡ 0)
      × (p + min_chunk_size ≤ (
          if leb min_chunk_size (sub64 (sub64 r 16) p) then sub64 r 16 else add64 (sub64 r 16) u))
      × ((if leb min_chunk_size (sub64 (sub64 r 16) p) then sub64 r 16 else add64 (sub64 r 16) u)
          < p + u + min_chunk_size)
place_at u p r wide e lo hi room = elim (dec_lt (r - 16 - p) min_chunk_size) [
  | yes near ↦
      let next : add64 (sub64 r 16) u + 16 ≡ r + u = omega arith in
      let again : (add64 (sub64 r 16) u + 16) % u ≡ 0 = rw (next, add-mod_right r u) e in
      rw (lt→leb min_chunk_size (sub64 (sub64 r 16) p) (omega arith))
        (again, omega arith, omega arith)
  | no far ↦
      let here : sub64 r 16 + 16 ≡ r = omega arith in
      rw (le→leb min_chunk_size (sub64 (sub64 r 16) p) (omega arith))
        (rw here e, omega arith, omega arith)
]

-- For the chunk at `p` and an alignment 2 ^ k, k at least 5, that leave room in the address space:
-- the place has aligned memory, leaves at least a minimal chunk in front of it, and stands less
-- than the alignment and a minimal chunk behind `p`.
pub aligned_pos-fits :
    (k p : ℕ)
    → 5 ≤ k
    → p + 2 * 2 ^ k + 64 < 2 ^ 64
    → ((aligned_pos (2 ^ k) (p + 16) p + 16) % 2 ^ k ≡ 0)
      × (p + min_chunk_size ≤ aligned_pos (2 ^ k) (p + 16) p)
      × (aligned_pos (2 ^ k) (p + 16) p < p + 2 ^ k + min_chunk_size)
unfolding aligned_pos mem2chunk
aligned_pos-fits k p hk room =
    let sum : sub64 (add64 (p + 16) (2 ^ k)) 1 ≡ p + 16 + 2 ^ k - 1 =
      omega (arith, one-le-pow k 2) in
    let wide : 2 ^ 5 ≤ 2 ^ k = pow-le-pow_right {n = 2} (omega arith) {i = 5} {j = k} hk in
    let up = round_up (2 ^ k) (p + 16) (one-le-pow k 2 (omega arith)) in
    rw (sum, and_not-mask k (p + 16 + 2 ^ k - 1) (omega arith))
      (place_at (2 ^ k) p (p + 16 + 2 ^ k - 1 - (p + 16 + 2 ^ k - 1) % 2 ^ k) wide up.0 up.1
        (omega arith) (omega arith))
