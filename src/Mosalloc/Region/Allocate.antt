-- ===== src/Mosalloc/Region/Allocate.antt =====
-- alloc_range in a well-formed region.
use mosalloc_rs.Base.{
  ℕ, suc, ◌+◌, ◌^◌, ◌≤◌, ◌<◌, ◌≡◌, refl, ◌⊎◌, inl, inr, arith, List, ◌∷◌, ◌++◌, All, Bool, true,
  false, if◌then◌else◌, ◌==◌, ltb, add64, max_size_t, bit_and, ne→==, eq→==, Bool-cases,
}
use mosalloc_rs.Mosalloc.System.{Sys, ok}
use mosalloc_rs.Mosalloc.System.Ends.{Ends, ends, bind, mono, result}
use mosalloc_rs.Mosalloc.Htlb.{is_file}
use mosalloc_rs.Mosalloc.Misc.Aligned.{page_round, align_up-page}
use mosalloc_rs.Mosalloc.FreeMap.{Range, range_len, del_range_from_freemap}
use mosalloc_rs.Mosalloc.FreeMap.Sorted.{split-IsFreeMap, floor-ge}
use mosalloc_rs.Mosalloc.FreeMap.Delete.{Deletes, FirstFit, del_range_from_freemap-FirstFit}
use mosalloc_rs.Mosalloc.FreeMap.Address.{IsHigh, del_range_from_freemap-at}
use mosalloc_rs.Mosalloc.Region.{Region, commit, alloc_range, map_fixed, map_fixed_noreplace}
use mosalloc_rs.Mosalloc.Region.Pages.{Maps, covered, map_pages-covers}
use mosalloc_rs.Mosalloc.Region.Invariant.{IsRegion, Allocates}

-- Unless the region is for files, mmap was called for memory with every address of the range; for
-- files nothing was called. The library still answers as it did.
pub record Mapped (r : Region) (p len : ℕ) (s s' : Sys) : Type 0 where
  pub libc : s'.libc ≡ s.libc
  pub cover :
      is_file r.alloc_type ≡ false → (a : ℕ) → p ≤ a → a < p + len → covered a s'.trace ≡ true
  pub quiet : is_file r.alloc_type ≡ true → s' ≡ s

module _ (r : Region) (w : IsRegion r) (prot flags : ℕ) (dryrun : Bool) (s : Sys)
    (libc : Maps s.libc) where
  commit-Allocates :
      (ys : List Range) (p len : ℕ)
      → 0 < len
      → r.start ≤ p
      → p + len ≤ r.max
      → Deletes r.start r.max r.free_map p len ys
      → Ends
          (λ out s'. (out.1 ≡ p) × Allocates r p len out.0 × Mapped r p len s s')
          (commit (record r { free_map = ys }) p len prot flags dryrun s)
  unfolding commit
  commit-Allocates ys p len pos low high d =
      let end : add64 p len ≡ p + len = omega (arith, w.bound) in
      rw end (elim (Bool-cases (is_file r.alloc_type)) [
        | inl file ↦ rw file (
            ends (
              refl,
              record { taken = d; rest = refl; inside = (low, high) },
              record { libc = refl; cover = λ h. absurd (cc); quiet = λ h. refl },
            ))
        | inr mem ↦ rw mem (
            bind
              (map_pages-covers (suc len)
                (record r { free_map = ys; end = if ltb r.end (p + len) then p + len else r.end }) p
                (p + len) prot flags dryrun s w.pages libc (omega arith) (omega arith)
                (omega (arith, w.bound)))
              (λ _ s1 q. ends (
                refl,
                record { taken = d; rest = refl; inside = (low, high) },
                record { libc = q.0; cover = λ h. q.2; quiet = λ h. absurd (cc) },
              )))
      ])

  -- The two outcomes without an address: nothing has room, or the first range that has is used.
  abbrev pub Fits : ℕ → Region → ℕ → Sys → Type 0
  Fits n r' p s' =
      ((p ≡ max_size_t) × (r' ≡ r) × (s' ≡ s) × All (λ x. range_len x < n) r.free_map)
      ⊎ (Allocates r p n r'
          × Mapped r p n s s'
          × All (λ x. (p ≤ x.start) ⊎ (range_len x < n)) r.free_map)

  no_fit :
      (len : ℕ)
      → len + 4096 ≤ 2 ^ 64
      → bit_and flags map_fixed ≡ 0
      → del_range_from_freemap 0 (page_round len) r.free_map s ≡ ok (r.free_map, max_size_t) s
      → All (λ x. range_len x < page_round len) r.free_map
      → Ends
          (λ out s'. Fits (page_round len) out.0 out.1 s')
          (alloc_range r 0 len prot flags dryrun s)
  unfolding alloc_range
  no_fit len room fixed e full = elim (Bool-cases (bit_and flags map_fixed_noreplace == 0)) [
    | inl replace ↦
        rw (align_up-page len s room, e, replace, eq→== (bit_and flags map_fixed) 0 fixed, e)
          (ends (inl (refl, refl, refl, full)))
    | inr noreplace ↦
        rw (align_up-page len s room, e, noreplace) (ends (inl (refl, refl, refl, full)))
  ]

  -- In a well-formed region, where libc's mmap gives memory or says EEXIST: alloc_range without an
  -- address and without MAP_FIXED, for a length above 0 that rounds up to pages within the address
  -- space, returns. Either it returns usize::MAX, the region and the system are as before, and every
  -- free range is smaller than the pages asked for. Or it returns an address from which on those
  -- pages were free and are taken, no range in front of it had room for them, and unless the region
  -- is for files, calls of mmap cover each of their addresses; for files, there was no call.
  pub alloc_range-first_fit :
      (len : ℕ)
      → 0 < len
      → len + 4096 ≤ 2 ^ 64
      → bit_and flags map_fixed ≡ 0
      → Ends
          (λ out s'. Fits (page_round len) out.0 out.1 s')
          (alloc_range r 0 len prot flags dryrun s)
  unfolding alloc_range
  alloc_range-first_fit len pos room fixed = finish (
      result (
        del_range_from_freemap-FirstFit r.start r.max (page_round len) r.free_map s w.map
          (ground arith) (omega (arith, w.bound))))
    where
      finish :
          (out : List Range × ℕ) × (s1 : Sys) × (del_range_from_freemap 0
                (page_round len)
                r.free_map
                s
              ≡ ok out s1)
            × ((s1 ≡ s) × FirstFit r.start r.max r.free_map (page_round len) out.0 out.1)
          → Ends
              (λ out s'. Fits (page_round len) out.0 out.1 s')
              (alloc_range r 0 len prot flags dryrun s)
      finish ((ys, p), s1, e, (same, inl (top, old, full))) =
          no_fit len room fixed (rw (same, top, old) at e) full
      finish ((ys, p), s1, e, (same, inr (low, high, d, first))) =
          rw (align_up-page len s room, e, same, ne→== p max_size_t (omega (arith, w.bound)))
            (mono (commit-Allocates ys p (page_round len) (ground arith) low high d)
              (λ out s' q. inr (rw (q.0) (q.1, q.2, first))))

  -- At an address in a free range of the region, with room behind it.
  pub alloc_range-at :
      (addr len : ℕ) (before behind : List Range) (x : Range)
      → r.free_map ≡ before ++ x ∷ behind
      → IsHigh r.start r.max
      → 0 < len
      → len + 4096 ≤ 2 ^ 64
      → x.start ≤ addr
      → addr < x.end
      → ((addr ≡ x.start) × (addr + page_round len ≤ x.end))
        ⊎ ((x.start < addr) × (addr + page_round len < x.end))
      → Ends
          (λ out s'.
            (out.1 ≡ addr)
            × Allocates r addr (page_round len) out.0
            × Mapped r addr (page_round len) s s')
          (alloc_range r addr len prot flags dryrun s)
  unfolding alloc_range
  alloc_range-at addr len before behind x e high pos room low inside fit =
      let m = rw e at w.map in
      let parts = split-IsFreeMap r.start r.max before (x ∷ behind) m in
      let floor = floor-ge r.start r.max before parts.0 in
      let end : addr + page_round len ≤ x.end = ground arith in
      finish (
        result (
          del_range_from_freemap-at r.start r.max addr (page_round len) before behind x m high low
            inside (ground arith) (omega (arith, parts.1.2, w.bound)) s fit))
    where
      finish :
          (out : List Range × ℕ) × (s1 : Sys) × (del_range_from_freemap addr
                (page_round len)
                (before ++ x ∷ behind)
                s
              ≡ ok out s1)
            × ((s1 ≡ s)
                × (out.1 ≡ addr)
                × Deletes r.start r.max (before ++ x ∷ behind) addr (page_round len) out.0)
          → Ends
              (λ out s'.
                (out.1 ≡ addr)
                × Allocates r addr (page_round len) out.0
                × Mapped r addr (page_round len) s s')
              (alloc_range r addr len prot flags dryrun s)
      finish ((ys, p), s1, f, (same, at, d)) =
          let m = rw e at w.map in
          let parts = split-IsFreeMap r.start r.max before (x ∷ behind) m in
          let floor = floor-ge r.start r.max before parts.0 in
          let end : addr + page_round len ≤ x.end = ground arith in
          let f' = rw (← e, same, at) at f in
          rw
            (
              align_up-page len s room,
              f',
              ne→== addr max_size_t (omega (arith, parts.1.2, w.bound)),
            )
            (commit-Allocates ys addr (page_round len) (ground arith) (omega (arith, parts.1.0))
              (omega (arith, parts.1.2)) (rw (← e) at d))
