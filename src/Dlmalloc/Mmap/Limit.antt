-- ===== src/Dlmalloc/Mmap/Limit.antt =====
-- The footprint limit in mmap_alloc.
use mosalloc_rs.Base.{ℕ, ◌≤◌, ◌≡◌, ◌≢◌, refl, inl, inr, arith, ◌==◌, ltb, add64, Bool-cases}
use mosalloc_rs.Dlmalloc.State.{State}
use mosalloc_rs.Dlmalloc.State.Returns.{Returns, returns}
use mosalloc_rs.Dlmalloc.Mmap.{mmap_alloc, mmap_size, over_limit, mfail}

-- With a footprint limit set and the footprint within it, mmap_alloc returns for every size and
-- whatever the system answers, with the footprint within the limit, which is unchanged.
pub mmap_alloc-limit :
    (s : State) (nb : ℕ)
    → s.footprint_limit ≢ 0
    → s.footprint ≤ s.footprint_limit
    → Returns
        (λ mem s'. (s'.footprint ≤ s'.footprint_limit) × (s'.footprint_limit ≡ s.footprint_limit))
        (mmap_alloc nb s)
unfolding mmap_alloc
mmap_alloc-limit s nb limit low = elim (Bool-cases (over_limit s (mmap_size s nb))) [
  | inl over ↦ rw over (returns (low, refl))
  | inr within ↦
      let below : add64 s.footprint (mmap_size s nb) ≤ s.footprint_limit = ground arith in
      rw within (elim (Bool-cases (ltb nb (mmap_size s nb))) [
        | inr wrapped ↦ rw wrapped (returns (low, refl))
        | inl room ↦
            rw room (elim (Bool-cases ((s.os.mmap s.calls (mmap_size s nb) s.mem).0 == mfail)) [
              | inl failed ↦ rw failed (returns (low, refl))
              | inr mapped ↦ rw mapped (returns (below, refl))
            ])
      ])
]
