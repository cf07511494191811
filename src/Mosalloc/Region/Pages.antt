-- ===== src/Mosalloc/Region/Pages.antt =====
-- The pages that alloc_range maps.
use native.Mathlib.Nat.{one-le-pow, mod-lt}
use mosalloc_rs.Base.{
  ℕ, zero, suc, ◌+◌, ◌-◌, ◌%◌, ◌^◌, ◌≤◌, ◌<◌, ◌≡◌, ◌≢◌, refl, ◌∙◌, ◌⊎◌, inl, inr, arith, List, [],
  ◌∷◌, All, Bool, true, false, ◌&&◌, ◌||◌, if◌then◌else◌, ◌==◌, leb, ltb, bit_or, add64, sub64,
  lt→ltb, le→ltb, ne→==, eq→==, Bool-cases,
}
use native.Mathlib.Decide.{dec_lt}
use mosalloc_rs.Mosalloc.System.{
  Sys, Libc, Call, mmap, munmap, mprotect, madvise, mremap, libc_brk, libc_sbrk, ok, called,
  map_failed, eexist, get_errno, ◌>>=◌, assert, pure,
}
use mosalloc_rs.Mosalloc.System.Ends.{Ends, ends, bind, mono}
use mosalloc_rs.Mosalloc.Misc.Aligned.{IsPage, align_down-power, multiple_below}
use mosalloc_rs.Mosalloc.Htlb.{Interval}
use mosalloc_rs.Mosalloc.Region.{
  Region, interval_pagesz, get_addr_pagesz, alloc, map_pages, huge_flags, no_fd, prot_read_write,
}

-- A call of mmap for memory that holds the address `a` was made.
abbrev pub covered : ℕ → List Call → Bool
covered a [] = false
covered a (mmap p n prot flags fd offset ∷ t) = (leb p a && ltb a (p + n)) || covered a t
covered a (munmap p n ∷ t) = covered a t
covered a (mprotect p n prot ∷ t) = covered a t
covered a (madvise p n advice ∷ t) = covered a t
covered a (mremap p o n flags q ∷ t) = covered a t
covered a (libc_brk p ∷ t) = covered a t
covered a (libc_sbrk i ∷ t) = covered a t

-- libc maps what it is asked to, or says that something is mapped there already.
abbrev pub Maps : Libc → Type 0
Maps libc =
    (t : List Call) (p n prot flags fd offset errno : ℕ)
    → ((libc t (mmap p n prot flags fd offset) errno).value ≢ map_failed)
      ⊎ ((libc t (mmap p n prot flags fd offset) errno).errno ≡ eexist)

abbrev pub HasPages : Region → Type 0
HasPages r = All (λ (x : Interval). IsPage x.pagesz) r.pool.intervals

interval_pagesz-IsPage :
    (xs : List Interval) (offset : ℕ)
    → All (λ x. IsPage x.pagesz) xs
    → IsPage (interval_pagesz xs offset)
unfolding interval_pagesz
interval_pagesz-IsPage [] offset h = record { power = 12; value = refl; small = omega arith }
interval_pagesz-IsPage (x ∷ xs) offset h =
    elim (Bool-cases (leb x.start offset && leb offset x.end)) [
      | inl e ↦ rw e h.0
      | inr e ↦ rw e (interval_pagesz-IsPage xs offset h.1)
    ]

get_addr_pagesz-IsPage : (r : Region) (a : ℕ) → HasPages r → IsPage (get_addr_pagesz r a)
unfolding get_addr_pagesz
get_addr_pagesz-IsPage r a h = interval_pagesz-IsPage r.pool.intervals (sub64 a r.start) h

check_passes :
    (v : ℕ) (s : Sys)
    → (v ≢ map_failed) ⊎ (s.errno ≡ eexist)
    → (if v == map_failed then get_errno >>= (λ e. assert (e == eexist)) else pure tt) s ≡ ok tt s
check_passes v s (inl h) = rw (ne→== v map_failed h) refl
check_passes v s (inr h) = elim (Bool-cases (v == map_failed)) [
  | inl e ↦ rw (e, eq→== s.errno eexist h) refl
  | inr e ↦ rw e refl
]

module _ (k : ℕ) (small : 2 ^ k ≤ 2 ^ 30) where
  -- alloc maps the page of an aligned address.
  alloc-covers :
      (a prot flags : ℕ) (dryrun : Bool) (s : Sys)
      → a % 2 ^ k ≡ 0
      → Maps s.libc
      → Ends
          (λ _ s'.
            (s'.libc ≡ s.libc)
            × ((b : ℕ)
                → covered b s'.trace ≡ ((leb a b && ltb b (a + 2 ^ k)) || covered b s.trace)))
          (alloc a (2 ^ k) prot flags dryrun s)
  unfolding alloc
  alloc-covers a prot flags dryrun s al libc =
      let same : a - a % 2 ^ k ≡ a = omega arith in
      let c =
        mmap a (2 ^ k) (bit_or prot prot_read_write) (huge_flags (2 ^ k) flags dryrun) no_fd 0 in
      rw
        (
          align_down-power k small a s,
          same,
          check_passes (s.libc s.trace c s.errno).value (called s c) (
              libc s.trace a (2 ^ k) (bit_or prot prot_read_write) (huge_flags (2 ^ k) flags dryrun)
                no_fd 0 s.errno),
        )
        (ends (refl, λ b. refl))

-- Every address of the range is covered, and 2 ^ 64 is not reached: enough fuel is one round more
-- than the range has bytes.
pub map_pages-covers :
    (fuel : ℕ) (r : Region) (cur end prot flags : ℕ) (dryrun : Bool) (s : Sys)
    → HasPages r
    → Maps s.libc
    → 0 < fuel
    → end < cur + fuel
    → end + 2 ^ 30 ≤ 2 ^ 64
    → Ends
        (λ _ s'.
          (s'.libc ≡ s.libc)
          × ((b : ℕ) → covered b s.trace ≡ true → covered b s'.trace ≡ true)
          × ((b : ℕ) → cur ≤ b → b < end → covered b s'.trace ≡ true))
        (map_pages fuel r cur end prot flags dryrun s)
unfolding map_pages
map_pages-covers zero r cur end prot flags dryrun s pages libc pos fuel room = absurd (omega arith)
map_pages-covers (suc fuel) r cur end prot flags dryrun s pages libc pos enough room =
    elim (dec_lt cur end) [
      | no over ↦
          rw (le→ltb cur end (omega arith)) (ends (refl, λ b h. h, λ b l h. absurd (omega arith)))
      | yes more ↦
          let size = get_addr_pagesz-IsPage r cur pages in
          let k = size.power in
          let p : get_addr_pagesz r cur ≡ 2 ^ k = size.value in
          let rem = mod-lt cur {m = 2 ^ k} (omega (arith, one-le-pow k 2)) in
          let next : add64 (cur - cur % 2 ^ k) (2 ^ k) ≡ cur - cur % 2 ^ k + 2 ^ k =
            omega (arith, size.small) in
          rw (lt→ltb cur end more, p, align_down-power k (omega (arith, size.small)) cur s, next)
            (bind
              (alloc-covers k (omega (arith, size.small)) (cur - cur % 2 ^ k) prot flags dryrun s
                (multiple_below cur (2 ^ k)) libc)
              (λ _ s1 q.
                mono
                  (map_pages-covers fuel r (cur - cur % 2 ^ k + 2 ^ k) end prot flags dryrun s1
                    pages (rw (q.0) libc) (omega arith) (omega arith) room)
                  (λ _ s2 t. (
                    t.0 ∙ q.0,
                    λ b h. t.1 b (ground (arith, q.1 b)),
                    λ b l h. elim (dec_lt b (cur - cur % 2 ^ k + 2 ^ k)) [
                      | yes here ↦ t.1 b (ground (arith, q.1 b))
                      | no later ↦ t.2 b (omega arith) h
                    ],
                  ))))
    ]
