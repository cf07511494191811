-- ===== src/Mosalloc/Seccomp/Break.antt =====
-- What a process sees that calls brk under seccomp.
use mosalloc_rs.Base.{
  ◌-◌, ◌%◌, ◌≤◌, ◌<◌, ◌≡◌, refl, ◌⊎◌, inl, inr, arith, none, some, max_size_t, ne→==,
}
use native.Mathlib.Decide.{dec_lt}
use mosalloc_rs.Mosalloc.System.{Sys, enomem}
use mosalloc_rs.Mosalloc.System.Ends.{Ends, ends, bind}
use mosalloc_rs.Mosalloc.Region.Pages.{Maps}
use mosalloc_rs.Mosalloc.Region.Allocate.{Mapped}
use mosalloc_rs.Mosalloc.Allocator.{Allocator}
use mosalloc_rs.Mosalloc.Allocator.Brk.{IsDrained, break_at, do_brk-moves, do_brk-refuses}
use mosalloc_rs.Mosalloc.Seccomp.{Request, Response, brk, handle}

module _ (a : Allocator) (w : IsDrained a) (req : Request) (s : Sys) where
  abbrev pub new_break : Request
  new_break = record req { syscall = brk }

  -- The two answers.
  abbrev pub Answers : Allocator × Response → Sys → Type 0
  Answers out s' =
      ((a.heap.start ≤ req.arg0)
        × (req.arg0 < a.heap.max)
        × (out ≡ (break_at a req.arg0, record { ret = req.arg0; err = 0 }))
        × Mapped a.heap a.heap.end (req.arg0 - a.heap.end) s s')
      ⊎ (((req.arg0 < a.heap.start) ⊎ (a.heap.max ≤ req.arg0))
          × (out ≡ (a, record { ret = max_size_t; err = 0 }))
          × (s' ≡ record s { errno = enomem }))

  refused :
      (req.arg0 < a.heap.start) ⊎ (a.heap.max ≤ req.arg0) → Ends Answers (handle a new_break s)
  unfolding handle
  refused off =
      rw (do_brk-refuses a w (some req.arg0) none s req.arg0 refl off)
        (ends (inr (off, refl, refl)))

  -- In a drained allocator with a heap that is well-formed, not locked, not full, at addresses above
  -- its size, and free exactly behind its break, where libc's mmap gives memory or says EEXIST: a
  -- request of brk for an address that is whole pages away from the break is answered. If it lies in
  -- the heap, the answer is the address, the heap has its break there, is free exactly behind it and
  -- is otherwise unchanged, and calls of mmap cover each address from the old break to the new one.
  -- If not, the answer is -1, without an error number, and nothing but errno has changed, which is
  -- ENOMEM.
  pub handle-Answers :
      Maps s.libc → req.arg0 % 4096 ≡ a.heap.end % 4096 → Ends Answers (handle a new_break s)
  unfolding handle
  handle-Answers libc pages = elim (dec_lt req.arg0 a.heap.start) [
    | yes below ↦ refused (inl below)
    | no low ↦ elim (dec_lt req.arg0 a.heap.max) [
      | no above ↦ refused (inr (omega arith))
      | yes high ↦
          bind (do_brk-moves a w (some req.arg0) none s req.arg0 refl libc (omega arith) high pages)
            (λ out s1 q.
              let break : out.1 ≡ a.heap.end = q.0 in
              rw
                (
                  break,
                  ne→== a.heap.end max_size_t (omega (arith, w.heap.room, w.heap.region.bound)),
                  q.1,
                )
                (ends (inl (omega arith, high, refl, q.2))))
    ]
  ]
