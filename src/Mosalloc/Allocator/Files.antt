-- ===== src/Mosalloc/Allocator/Files.antt =====
-- mmap and munmap of files, which the file region places and libc maps.
use mosalloc_rs.Base.{
  ℕ, ◌+◌, ◌^◌, ◌≤◌, ◌<◌, ◌≡◌, ◌≢◌, refl, sym, ap, ◌∙◌, ◌⊎◌, inl, inr, arith, List, All, Bool, true,
  false, ◌&&◌, not, if◌then◌else◌, ◌==◌, leb, ltb, add64, max_size_t, bit_and, ne→==,
}
use mosalloc_rs.Mosalloc.System.{
  Sys, Libc, Call, ◌>>=◌, pure, called, mmap, munmap, enomem, eexist, map_failed,
}
use mosalloc_rs.Mosalloc.System.Ends.{Ends, ends, bind, mono}
use mosalloc_rs.Mosalloc.Htlb.{is_file, is_file-anon}
use mosalloc_rs.Mosalloc.Misc.Aligned.{page_round}
use mosalloc_rs.Mosalloc.FreeMap.{range_len}
use mosalloc_rs.Mosalloc.Region.{Region, contains, unlock, map_fixed, map_fixed_noreplace, no_fd}
use mosalloc_rs.Mosalloc.Region.Pages.{Maps}
use mosalloc_rs.Mosalloc.Region.Invariant.{
  IsRegion, IsRegion-lock, Allocates, Allocates-lock, lock_free,
}
use mosalloc_rs.Mosalloc.Region.Allocate.{Fits, alloc_range-first_fit}
use mosalloc_rs.Mosalloc.Region.Release.{free_range-Allocates}
use mosalloc_rs.Mosalloc.Allocator.{
  Allocator, file, with_region, mmap_request, munmap_request, mmap_result,
}

-- The file region is well-formed and not locked.
pub record HasFiles (a : Allocator) : Type 0 where
  pub region : IsRegion a.file_region
  pub kind : is_file a.file_region.alloc_type ≡ true
  pub unlocked : a.file_region.lock ≡ true

Bool-and_false : (b : Bool) → (not b && false) ≡ false
Bool-and_false true = refl
Bool-and_false false = refl

abbrev pub refused : ℕ → ℕ
refused flags = if not (bit_and flags map_fixed_noreplace == 0) then eexist else enomem

module _ (a : Allocator) (w : HasFiles a) (len prot flags fd offset : ℕ) (s : Sys)
    (libc : Maps s.libc) where
  -- Nothing fits and nothing changes but errno, or libc is asked for the pages taken, and for no others.
  abbrev pub Places : Allocator × ℕ → Sys → Type 0
  Places out s' =
      ((out ≡ (a, map_failed))
        × (s' ≡ record s { errno = refused flags })
        × All (λ x. range_len x < page_round len) a.file_region.free_map)
      ⊎ ((p : ℕ) × Allocates a.file_region p (page_round len) out.0.file_region
          × (out.0 ≡ record a { file_region = out.0.file_region })
          × (out.1 ≡ (s.libc s.trace (mmap p len prot flags fd offset) s.errno).value)
          × (s' ≡ called s (mmap p len prot flags fd offset)))

  abbrev locked : Region
  locked = record a.file_region { lock = false }

  placed :
      (r : Region) (p : ℕ) (s1 : Sys)
      → Fits locked
          (IsRegion-lock a.file_region false w.region)
          prot
          flags
          a.dryrun
          s
          libc
          (page_round len)
          r
          p
          s1
      → Ends Places (mmap_result (with_region a file (unlock r)) file p len prot flags fd offset s1)
  placed r p s1 (inl (top, kept, same, full)) =
      let back : record a { file_region = unlock r } ≡ a =
        ap (λ z. record a { file_region = unlock z }) kept
        ∙ ap (λ z. record a { file_region = record a.file_region { lock = z } }) (sym w.unlocked) in
      rw (top, same) (ends (inl (ap (λ z. (z, map_failed)) back, refl, full)))
  placed r p s1 (inr (c, mapped, first)) =
      let kind : is_file r.alloc_type ≡ true =
        ap {A = Region} (λ z. is_file z.alloc_type) c.rest ∙ w.kind in
      let same : s1 ≡ s = mapped.quiet w.kind in
      rw (ne→== p max_size_t (omega (arith, c.inside, w.region.bound)), kind, same)
        (ends (
          inr (
            p,
            Allocates-lock a.file_region false true p (page_round len) r w.unlocked c,
            refl,
            refl,
            refl,
          )))

  pub mmap_request-Places :
      0 < len
      → len + 4096 ≤ 2 ^ 64
      → fd ≢ no_fd
      → bit_and flags map_fixed ≡ 0
      → Ends Places (mmap_request a 0 len prot flags fd offset s)
  unfolding mmap_request
  mmap_request-Places pos room named fixed =
      simp
        (
          ne→== fd no_fd named,
          is_file-anon a.file_region.alloc_type w.kind,
          lock_free a.file_region w.unlocked s,
          Bool-and_false a.drained,
        )
        (bind
          (alloc_range-first_fit locked (IsRegion-lock a.file_region false w.region) prot flags
            a.dryrun s libc len pos room fixed)
          (λ out s1 q. placed out.0 out.1 s1 q))

-- libc maps at the address that it is asked for, unless that is 0.
abbrev pub Obeys : Libc → Type 0
Obeys libc =
    (t : List Call) (p n prot flags fd offset errno : ℕ)
    → 0 < p
    → (libc t (mmap p n prot flags fd offset) errno).value ≡ p

-- The other regions hold no address of the file region.
abbrev pub IsApart : Allocator → Type 0
IsApart a =
    (b : ℕ)
    → contains a.file_region b ≡ true
    → (contains a.heap b ≡ false) × (contains a.anon_region b ≡ false)

-- The allocator but for the end of its file region.
abbrev pub with_end : Allocator → ℕ → Allocator
with_end a e = record a { file_region = record a.file_region { end = e } }

munmap_request-Allocates :
    (a : Allocator) (r1 : Region) (p len : ℕ) (s : Sys)
    → HasFiles a
    → IsApart a
    → 0 < len
    → len + 4096 ≤ 2 ^ 64
    → Allocates a.file_region p (page_round len) r1
    → Ends
        (λ out s'.
          (out.0 ≡ with_end a out.0.file_region.end)
          × (out.1 ≡ (s.libc s.trace (munmap p len) s.errno).value)
          × (s' ≡ called s (munmap p len)))
        (munmap_request (record a { file_region = r1 }) p len s)
unfolding munmap_request contains
munmap_request-Allocates a r1 p len s w apart pos room c =
    let r = a.file_region in
    let below : (leb r.start p && ltb p r.max) ≡ true = ground (arith, c.inside) in
    let other = apart p below in
    let kind : is_file r1.alloc_type ≡ true =
      ap {A = Region} (λ z. is_file z.alloc_type) c.rest ∙ w.kind in
    let start : r1.start ≡ r.start = ap {A = Region} (λ z. z.start) c.rest in
    let max : r1.max ≡ r.max = ap {A = Region} (λ z. z.max) c.rest in
    let free : r1.lock ≡ true = ap {A = Region} (λ z. z.lock) c.rest ∙ w.unlocked in
    let inside : (leb r1.start p && ltb p r1.max) ≡ true = rw (start, max) below in
    let end : leb (add64 p len) r1.max ≡ true = ground (arith, c.inside, w.region.bound) in
    simp (other.0, other.1, inside, end, lock_free r1 free s)
      (bind
        (free_range-Allocates (record r { lock = false }) (record r1 { lock = false }) p len s
          (IsRegion-lock r false w.region) pos room
          (Allocates-lock (record r { lock = false }) r.lock false p (page_round len) r1 refl c))
        (λ r2 s1 q.
          let still : is_file r2.alloc_type ≡ true =
            ap {A = Region} (λ z. is_file z.alloc_type) q.1 ∙ w.kind in
          rw (still, q.0)
            (ends (
              ap (λ z. record a { file_region = unlock z }) q.1
                  ∙ ap (λ z. record a { file_region = record r { end = r2.end; lock = z } })
                      (sym w.unlocked),
              refl,
              refl,
            ))))

-- Where the file region is well-formed and not locked, no address of it belongs to the other
-- regions, and libc maps at the address it is asked for: mmap with a file descriptor other than
-- -1, without an address and without MAP_FIXED, for a length above 0 that rounds up to pages
-- within the address space, followed by munmap of the result unless it is MAP_FAILED, returns with
-- the allocator from before in all but the end of the file region.
pub mmap_request-munmap_request :
    (a : Allocator) (len prot flags fd offset : ℕ) (s : Sys)
    → HasFiles a
    → IsApart a
    → Maps s.libc
    → Obeys s.libc
    → 0 < len
    → len + 4096 ≤ 2 ^ 64
    → fd ≢ no_fd
    → bit_and flags map_fixed ≡ 0
    → Ends
        (λ out s'. out.0 ≡ with_end a out.0.file_region.end)
        ((mmap_request a 0 len prot flags fd offset >>= λ o.
            (if o.1 == map_failed then pure o else munmap_request o.0 o.1 len))
          s)
mmap_request-munmap_request a len prot flags fd offset s w apart libc obeys pos room named fixed =
    bind (mmap_request-Places a w len prot flags fd offset s libc pos room named fixed) given
  where
    given :
        (out : Allocator × ℕ) (s1 : Sys)
        → Places a w len prot flags fd offset s libc out s1
        → Ends
            (λ out s'. out.0 ≡ with_end a out.0.file_region.end)
            ((if out.1 == map_failed then pure out else munmap_request out.0 out.1 len) s1)
    given out s1 (inl (none, same, full)) = rw (none) (ends refl)
    given out s1 (inr (p, c, rest, value, same)) =
        let at : out.1 ≡ p =
          value
          ∙ obeys s.trace p len prot flags fd offset s.errno
              (omega (arith, c.inside, w.region.base)) in
        rw (at, ne→== p map_failed (omega (arith, c.inside, w.region.bound)), rest)
          (mono (munmap_request-Allocates a out.0.file_region p len s1 w apart pos room c)
            (λ o s2 q. q.0))
