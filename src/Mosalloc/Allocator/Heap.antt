-- ===== src/Mosalloc/Allocator/Heap.antt =====
-- The heap region: what is free lies behind the break, which moves up and down.
use mathlib.Core.Path.{subst}
use mosalloc_rs.Base.{
  ℕ, ◌+◌, ◌-◌, ◌%◌, ◌≤◌, ◌<◌, ◌≡◌, refl, ap, ◌∙◌, inl, arith, List, [], ◌∷◌, Bool, true, false,
  ◌&&◌, if◌then◌else◌, ◌==◌, leb, ltb, eq→==, lt→ltb, le→ltb,
}
use native.Mathlib.Decide.{dec_lt}
use mosalloc_rs.Mosalloc.System.{Sys}
use mosalloc_rs.Mosalloc.System.Ends.{Ends, ends, bind, mono}
use mosalloc_rs.Mosalloc.Htlb.{is_file}
use mosalloc_rs.Mosalloc.Misc.Aligned.{page_round}
use mosalloc_rs.Mosalloc.FreeMap.Sorted.{IsFreeMap, is_free}
use mosalloc_rs.Mosalloc.FreeMap.{Range}
use mosalloc_rs.Mosalloc.FreeMap.Address.{IsHigh}
use mosalloc_rs.Mosalloc.FreeMap.Canonical.{IsFreeMap-unique}
use mosalloc_rs.Mosalloc.Region.{Region, last_start}
use mosalloc_rs.Mosalloc.Region.Pages.{Maps}
use mosalloc_rs.Mosalloc.Region.Invariant.{IsRegion}
use mosalloc_rs.Mosalloc.Region.Invariant.{IsRegion-lock}
use mosalloc_rs.Mosalloc.Region.Allocate.{Mapped, alloc_range-at}
use mosalloc_rs.Mosalloc.Region.Release.{free_range-Frees}
use mosalloc_rs.Mosalloc.Allocator.{move_brk}

abbrev pub range : ℕ → ℕ → Range
range start end = record { start = start; end = end }

-- The heap region is well-formed, lies above an address of its size, is not locked and not full, and
-- what is free is what lies behind the break.
pub record IsHeap (h : Region) : Type 0 where
  pub region : IsRegion h
  pub high : IsHigh h.start h.max
  pub kind : is_file h.alloc_type ≡ false
  pub unlocked : h.lock ≡ true
  pub room : h.end < h.max
  pub free : h.free_map ≡ range h.end h.max ∷ []

-- The heap with its break at `e`.
abbrev pub heap_at : Region → ℕ → Region
heap_at h e = record h { free_map = range e h.max ∷ []; end = e }

-- A well-formed free map with the addresses from `e` on is that one range.
one_range :
    (h : Region) (e : ℕ) (xs : List Range)
    → IsFreeMap h.start h.max xs
    → h.start ≤ e
    → e < h.max
    → ((a : ℕ) → is_free a xs ≡ (leb e a && ltb a h.max))
    → xs ≡ range e h.max ∷ []
one_range h e xs m low high same =
    IsFreeMap-unique h.start h.max xs (range e h.max ∷ []) m (low, high, omega arith, tt)
      (λ a. ground (arith, same a))

module _ (h : Region) (w : IsHeap h) (dryrun : Bool) (s : Sys) where
  abbrev pub held : Region
  held = record h { lock = false }

  move_up :
      (i : ℕ)
      → Maps s.libc
      → 0 < i
      → i % 4096 ≡ 0
      → h.end + i < h.max
      → Ends
          (λ r s'. (r ≡ record (heap_at h (h.end + i)) { lock = false }) × Mapped h h.end i s s')
          (move_brk held h.end (h.end + i) dryrun s)
  move_up i libc pos al fit =
      let v = w.region in
      let bytes : h.end + i - h.end ≡ i = omega arith in
      let round : page_round i ≡ i = rw (al) refl in
      rw (lt→ltb h.end (h.end + i) (omega arith), bytes)
        (bind
          (alloc_range-at held (IsRegion-lock h false v) 3 34 dryrun s libc h.end i [] []
            (range h.end h.max) w.free w.high pos (omega (arith, v.bound)) (omega arith) w.room
            (inl (refl, ground (arith, v.bound))))
          (λ out s' q.
            let c = q.1 in
            let map =
              one_range h (h.end + i) out.0.free_map c.taken.well (omega (arith, v.low)) fit
                (λ a. let now = rw (w.free, round) at (c.taken.now a) in ground arith) in
            let e = if ltb h.end (h.end + page_round i) then h.end + page_round i else h.end in
            let end : e ≡ h.end + i = ground (arith, round) in
            let mapped = rw round at q.2 in
            ends (
              c.rest
                  ∙ ap (λ z. record held { free_map = z; end = e }) map
                  ∙ ap (λ z. record held { free_map = range (h.end + i) h.max ∷ []; end = z }) end,
              record { libc = mapped.libc; cover = mapped.cover; quiet = mapped.quiet },
            )))

  move_down :
      (i : ℕ)
      → 0 < i
      → i % 4096 ≡ 0
      → h.start + i ≤ h.end
      → Ends
          (λ r s'. (r ≡ record (heap_at h (h.end - i)) { lock = false }) × (s' ≡ s))
          (move_brk held h.end (h.end - i) dryrun s)
  move_down i pos al fit =
      let v = w.region in
      let bytes : h.end - (h.end - i) ≡ i = omega arith in
      let round : page_round i ≡ i = rw (al) refl in
      let back : h.end - i + i ≡ h.end = omega arith in
      rw (le→ltb h.end (h.end - i) (omega arith), lt→ltb (h.end - i) h.end (omega arith), bytes)
        (mono
          (free_range-Frees held (h.end - i) i s (IsRegion-lock h false v) pos
            (omega (arith, v.bound, v.top)) (omega arith) (rw (round, back) v.top)
            (λ a l k. rw w.free (ground (arith, round))))
          (λ r s' q.
            let f = q.1 in
            let map =
              one_range h (h.end - i) r.free_map f.given.well (omega arith) (omega (arith, w.room))
                (λ a.
                  let now = rw (w.free, round, back) at (f.given.now a) in
                  ground (arith, w.room)) in
            let e =
              if h.end == h.end - i + page_round i then last_start r.free_map h.start else h.end in
            let end : e ≡ h.end - i = rw (map, round, back, eq→== h.end h.end refl) refl in
            (
              f.rest
                  ∙ ap (λ z. record held { free_map = z; end = e }) map
                  ∙ ap (λ z. record held { free_map = range (h.end - i) h.max ∷ []; end = z }) end,
              q.0,
            )))

  abbrev pub Moves : ℕ → Region → Sys → Type 0
  Moves e r s' = (r ≡ record (heap_at h e) { lock = false }) × Mapped h h.end (e - h.end) s s'

  nothing-Mapped : (n : ℕ) (s' : Sys) → n ≡ 0 → s' ≡ s → Mapped h h.end n s s'
  nothing-Mapped n s' e same = record {
    libc = ap {A = Sys} (λ z. z.libc) same;
    cover = λ k a l b. absurd (omega arith);
    quiet = λ k. same;
  }

  pub move_brk-Moves :
      (e : ℕ)
      → Maps s.libc
      → h.start ≤ e
      → e < h.max
      → e % 4096 ≡ h.end % 4096
      → Ends (Moves e) (move_brk held h.end e dryrun s)
  move_brk-Moves e libc low high pages = elim (dec_lt h.end e) [
    | yes up ↦
        let there : h.end + (e - h.end) ≡ e = omega arith in
        subst
          (λ z.
            Ends
              (λ r s'.
                (r ≡ record (heap_at h z) { lock = false }) × Mapped h h.end (e - h.end) s s')
              (move_brk held h.end z dryrun s))
          there (move_up (e - h.end) libc (omega arith) (omega arith) (omega arith))
    | no other ↦ elim (dec_lt e h.end) [
      | yes down ↦
          let there : h.end - (h.end - e) ≡ e = omega arith in
          mono
            (subst
              (λ z.
                Ends (λ r s'. (r ≡ record (heap_at h z) { lock = false }) × (s' ≡ s))
                  (move_brk held h.end z dryrun s))
              there (move_down (h.end - e) (omega arith) (omega arith) (omega arith)))
            (λ r s' q. (q.0, nothing-Mapped (e - h.end) s' (omega arith) q.1))
      | no same ↦
          let here : h.end ≡ e = omega arith in
          rw (le→ltb h.end e (omega arith), le→ltb e h.end (omega arith))
            (ends (
              ap (λ z. record held { free_map = z }) w.free
                  ∙ ap (λ z. record (heap_at h z) { lock = false }) here,
              nothing-Mapped (e - h.end) s (omega arith) refl,
            ))
    ]
  ]

pub heap_at-IsHeap :
    (h : Region) (e : ℕ) → IsHeap h → h.start ≤ e → e < h.max → IsHeap (heap_at h e)
heap_at-IsHeap h e w low high =
    let v = w.region in
    record {
      region = record {
        map = (low, high, omega arith, tt);
        base = v.base;
        bound = v.bound;
        low = low;
        top = omega arith;
        above = λ a l k. ground arith;
        pages = v.pages;
      };
      high = w.high;
      kind = w.kind;
      unlocked = w.unlocked;
      room = high;
      free = refl;
    }
