-- ===== src/Mosalloc/Allocator/Brk.antt =====
-- The program break: brk and sbrk.
use mosalloc_rs.Base.{
  ℕ, ◌+◌, ◌-◌, ◌%◌, ◌^◌, ◌≤◌, ◌<◌, ◌≡◌, refl, sym, ap, ◌∙◌, ◌⊎◌, arith, true, false, ◌&&◌, Option,
  none, some, leb, ltb, max_size_t, lt→ltb, le→ltb, le→leb,
}
use mosalloc_rs.Mosalloc.System.{Sys, ok, ◌>>=◌, enomem}
use mosalloc_rs.Mosalloc.System.Ends.{Ends, ends, bind, mono}
use mosalloc_rs.Mosalloc.Region.{contains, unlock}
use mosalloc_rs.Mosalloc.Region.Pages.{Maps}
use mosalloc_rs.Mosalloc.Region.Invariant.{lock_free}
use mosalloc_rs.Mosalloc.Region.Allocate.{Mapped}
use mosalloc_rs.Mosalloc.Allocator.{Allocator, new_brk, do_brk, sbrk}
use mosalloc_rs.Mosalloc.Allocator.Heap.{IsHeap, heap_at, move_brk-Moves, heap_at-IsHeap}

-- A drained allocator whose heap is well-formed.
pub record IsDrained (a : Allocator) : Type 0 where
  pub drained : a.drained ≡ true
  pub heap : IsHeap a.heap

abbrev pub break_at : Allocator → ℕ → Allocator
break_at a e = record a { heap = heap_at a.heap e }

module _ (a : Allocator) (w : IsDrained a) (addr incr : Option ℕ) (s : Sys) where
  -- In a drained allocator with a heap that is well-formed, not locked, not full, at addresses above
  -- its size, and free exactly behind its break, where libc's mmap gives memory or says EEXIST: a
  -- request for a break inside of the heap, whole pages away from the old one, returns the old
  -- break. Then the heap has the new break, is free exactly behind it and is otherwise unchanged,
  -- and calls of mmap cover each address from the old break to the new one.
  pub do_brk-moves :
      (e : ℕ)
      → new_brk a.heap.end addr incr s ≡ ok e s
      → Maps s.libc
      → a.heap.start ≤ e
      → e < a.heap.max
      → e % 4096 ≡ a.heap.end % 4096
      → Ends
          (λ out s'.
            (out.1 ≡ a.heap.end)
            × (out.0 ≡ break_at a e)
            × Mapped a.heap a.heap.end (e - a.heap.end) s s')
          (do_brk a addr incr s)
  unfolding do_brk contains
  do_brk-moves e request libc low high pages =
      let h = a.heap in
      let v = w.heap in
      simp (w.drained, lock_free h v.unlocked s, request, le→leb h.start e low, lt→ltb e h.max high)
        (bind (move_brk-Moves h v a.dryrun s e libc low high pages) (λ r s' q. ends (
          refl,
          ap (λ z. record a { heap = unlock z; drained = true }) q.0
              ∙ ap (λ z. record a { heap = record (heap_at h e) { lock = z }; drained = true })
                  (sym v.unlocked),
          q.1,
        )))

  -- Outside of the heap the break stays, the lock is released and errno is ENOMEM.
  pub do_brk-refuses :
      (e : ℕ)
      → new_brk a.heap.end addr incr s ≡ ok e s
      → (e < a.heap.start) ⊎ (a.heap.max ≤ e)
      → do_brk a addr incr s ≡ ok (a, max_size_t) (record s { errno = enomem })
  unfolding do_brk contains
  do_brk-refuses e request off =
      let h = a.heap in
      let v = w.heap in
      let outside : (leb h.start e && ltb e h.max) ≡ false = ground arith in
      let back : record a { heap = record h { lock = true } } ≡ a =
        ap (λ z. record a { heap = record h { lock = z } }) (sym v.unlocked) in
      simp (w.drained, lock_free h v.unlocked s, request, outside)
        (ap (λ z. ok (z, max_size_t) (record s { errno = enomem }))
          (ap (λ z. record a { heap = record h { lock = true }; drained = z }) (sym w.drained)
            ∙ back))

-- In a drained allocator with a heap that is well-formed, not locked, not full, at addresses above
-- its size, and free exactly behind its break, where libc's mmap gives memory or says EEXIST: sbrk
-- by a positive number of whole pages that stay below the end of the heap, followed by sbrk by as
-- many back, returns the break in between and leaves the allocator as it was.
pub sbrk-sbrk :
    (a : Allocator) (i : ℕ) (s : Sys)
    → IsDrained a
    → Maps s.libc
    → 0 < i
    → i % 4096 ≡ 0
    → a.heap.end + i < a.heap.max
    → Ends
        (λ out s'. (out.1 ≡ a.heap.end + i) × (out.0 ≡ a))
        ((sbrk a i >>= λ o. sbrk o.0 (2 ^ 64 - i)) s)
unfolding sbrk
sbrk-sbrk a i s w libc pos al fit =
    let h = a.heap in
    let v = w.heap in
    let low = v.region.low in
    let top = v.region.bound in
    let small = v.high in
    let up : new_brk h.end none (some i) s ≡ ok (h.end + i) s =
      rw (lt→ltb i (2 ^ 63) (omega arith), lt→ltb (h.end + i) (2 ^ 64) (omega arith)) refl in
    bind
      (do_brk-moves a w none (some i) s (h.end + i) up libc (omega (arith, v.region.low)) fit
        (omega arith))
      (λ o s1 q.
        let w1 : IsDrained (break_at a (h.end + i)) = record {
          drained = w.drained;
          heap = heap_at-IsHeap h (h.end + i) v (omega (arith, v.region.low)) fit;
        } in
        let mapped = q.2 in
        let down : new_brk (h.end + i) none (some (2 ^ 64 - i)) s1 ≡ ok h.end s1 =
          let off : 2 ^ 64 - (2 ^ 64 - i) ≡ i = omega arith in
          let back : h.end + i - i ≡ h.end = omega arith in
          rw
            (
              le→ltb (2 ^ 64 - i) (2 ^ 63) (omega arith),
              off,
              le→leb i (h.end + i) (omega arith),
              back,
            )
            refl in
        rw (q.1) (
          mono
            (do_brk-moves (break_at a (h.end + i)) w1 none (some (2 ^ 64 - i)) s1 h.end down
              (rw (mapped.libc) libc) v.region.low v.room (omega arith))
            (λ o2 s2 t.
              (t.0, t.1 ∙ ap (λ z. record a { heap = record h { free_map = z } }) (sym v.free)))))
