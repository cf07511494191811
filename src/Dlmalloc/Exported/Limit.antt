-- ===== src/Dlmalloc/Exported/Limit.antt =====
-- The footprint limit.
use mosalloc_rs.Base.{
  ℕ, ◌+◌, ◌*◌, ◌%◌, ◌^◌, ◌≤◌, ◌<◌, ◌≡◌, refl, ◌⊎◌, inl, inr, arith, max_size_t, ne→==, eq→==,
}
use mosalloc_rs.Dlmalloc.State.{State, ◌>>=◌}
use mosalloc_rs.Dlmalloc.State.Returns.{Returns, returns}
use mosalloc_rs.Dlmalloc.Params.{align_to}
use mosalloc_rs.Dlmalloc.Params.Align.{align_to-IsLeast}
use mosalloc_rs.Dlmalloc.Exported.{dlmalloc_set_footprint_limit, dlmalloc_footprint_limit}

-- With a granularity of 2 ^ k: for every limit above 0 that rounds up within a `size_t` and is not
-- MAX_SIZE_T, the limit read after it was set is the least multiple of the granularity that is not
-- below it, and setting and reading it changes nothing but the limit.
pub footprint_limit-set_footprint_limit :
    (s : State) (k bytes : ℕ)
    → s.mparams.granularity ≡ 2 ^ k
    → 2 ^ k < 2 ^ 64
    → 0 < bytes
    → bytes + 2 ^ k ≤ 2 ^ 64
    → bytes < max_size_t
    → Returns
        (λ r s'.
          (r % 2 ^ k ≡ 0)
          × (bytes ≤ r)
          × ((m : ℕ) → bytes ≤ m * 2 ^ k → r ≤ m * 2 ^ k)
          × (s' ≡ record s { footprint_limit = r }))
        ((dlmalloc_set_footprint_limit bytes >>= λ _. dlmalloc_footprint_limit) s)
unfolding dlmalloc_set_footprint_limit dlmalloc_footprint_limit
footprint_limit-set_footprint_limit s k bytes g fit pos room small =
    let up = align_to-IsLeast k bytes room fit in
    rw
      (
        ne→== bytes max_size_t (omega arith),
        g,
        ne→== (align_to (2 ^ k) bytes) 0 (omega (arith, up.1)),
      )
      (returns (up.0, up.1, up.2, refl))

-- With a granularity of 2 ^ k, the limit 0 switches the limit off, as the limit MAX_SIZE_T does:
-- what is read after setting either is MAX_SIZE_T.
pub footprint_limit-zero :
    (s : State) (k bytes : ℕ)
    → s.mparams.granularity ≡ 2 ^ k
    → 2 ^ k < 2 ^ 64
    → (bytes ≡ 0) ⊎ (bytes ≡ max_size_t)
    → Returns
        (λ r s'. (r ≡ max_size_t) × (s' ≡ record s { footprint_limit = 0 }))
        ((dlmalloc_set_footprint_limit bytes >>= λ _. dlmalloc_footprint_limit) s)
unfolding dlmalloc_set_footprint_limit dlmalloc_footprint_limit
footprint_limit-zero s k bytes g fit (inl e) =
    let up = align_to-IsLeast k 0 (omega arith) fit in
    let z : align_to (2 ^ k) 0 ≡ 0 = omega (arith, up.2 0 (omega arith)) in
    rw (e, g, z) (returns (refl, refl))
footprint_limit-zero s k bytes g fit (inr e) = rw (eq→== bytes max_size_t e) (returns (refl, refl))
