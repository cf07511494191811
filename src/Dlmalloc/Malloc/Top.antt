-- ===== src/Dlmalloc/Malloc/Top.antt =====
-- Allocation from the top chunk, when nothing else is free.
use native.Mathlib.Nat.{zero-div}
use mosalloc_rs.Base.{
  ℕ, ◌+◌, ◌-◌, ◌/◌, ◌%◌, ◌^◌, ◌<◌, ◌≡◌, ◌≢◌, refl, sym, ap, ◌∙◌, arith, ltb, leb, false, add64,
  sub64, ne→==, eq→==, lt→ltb, lt→leb, Bool-cases, inl, inr,
}
use mosalloc_rs.Dlmalloc.State.{State, head_of}
use mosalloc_rs.Dlmalloc.State.Returns.{Returns, returns, mono}
use mosalloc_rs.Dlmalloc.Sizes.{
  chunk2mem, request2size, min_request, max_request, max_small_request,
}
use mosalloc_rs.Dlmalloc.Sizes.Bounds.{request2size-IsLeast}
use mosalloc_rs.Dlmalloc.Index.{small_index}
use mosalloc_rs.Dlmalloc.Params.Lock.{locked}
use mosalloc_rs.Dlmalloc.SysAlloc.{split_top}
use mosalloc_rs.Dlmalloc.Malloc.{malloc_rest, malloc_locked, dlmalloc}

-- The top chunk: aligned, inside the address space, with its size and PINUSE_BIT in its head.
pub record IsTop (s : State) : Type 0 where
  pub aligned : s.top % 16 ≡ 0
  pub size_aligned : s.topsize % 16 ≡ 0
  pub room : s.top + s.topsize + 80 < 2 ^ 64
  pub head : s.mem (head_of s.top) ≡ s.topsize + 1

-- Between `s` and `s'` a chunk of `nb` bytes was cut off the lower end of top.
pub record CutsTop (s : State) (nb : ℕ) (s' : State) : Type 0 where
  pub rest : s' ≡ record s { top = s.top + nb; topsize = s.topsize - nb; mem = s'.mem }
  pub chunk : s'.mem (head_of s.top) ≡ nb + 3
  pub remainder : s'.mem (head_of (s.top + nb)) ≡ s.topsize - nb + 1
  pub words : (a : ℕ) → a ≢ head_of s.top → a ≢ head_of (s.top + nb) → s'.mem a ≡ s.mem a

pub split_top-CutsTop :
    (s : State) (nb : ℕ)
    → IsTop s
    → nb % 16 ≡ 0
    → 0 < nb
    → nb < s.topsize
    → Returns (λ mem s'. (mem ≡ s.top + 16) × CutsTop s nb s') (split_top nb s)
unfolding chunk2mem
split_top-CutsTop s nb t al pos fit =
    let r : add64 s.top nb ≡ s.top + nb = omega (arith, t.room) in
    let n : sub64 s.topsize nb ≡ s.topsize - nb = omega (arith, t.room) in
    rw (r, n)
      (returns (
        omega (arith, t.room),
        record {
          rest = refl;
          chunk = ground arith;
          remainder = ground (arith, t.size_aligned);
          words = λ a x y. ground arith;
        },
      ))

-- Nothing is free but top: no bin is marked and there is no designated victim.
pub record OnlyTop (s : State) : Type 0 where
  pub smallmap : s.smallmap ≡ 0
  pub treemap : s.treemap ≡ 0
  pub dv : s.dv ≡ 0
  pub dvsize : s.dvsize ≡ 0

-- With nothing in the bins a request goes to the designated victim, top and the system.
pub malloc_locked-malloc_rest :
    (s : State)
    → OnlyTop s
    → (bytes : ℕ) → bytes < max_request
    → malloc_locked bytes s ≡ malloc_rest (request2size bytes) s
unfolding malloc_locked request2size
malloc_locked-malloc_rest s only bytes h =
    let size = request2size-IsLeast bytes h in
    let unmarked : s.smallmap / 2 ^ small_index (request2size bytes) ≡ 0 =
      rw (only.smallmap) (zero-div _) in
    let no_dv = lt→leb (request2size bytes) s.dvsize (omega (arith, size.1, only.dvsize)) in
    let no_tree = eq→== s.treemap 0 only.treemap in
    elim (Bool-cases (leb bytes max_small_request)) [
      | inl small ↦ rw (small, unmarked, no_dv, no_tree) refl
      | inr large ↦
          let wide : ltb bytes min_request ≡ false = ground arith in
          rw (large, lt→leb max_request bytes h, no_tree, wide) refl
    ]

module _ (s : State) (only : OnlyTop s) (t : IsTop s) where
  malloc_rest-CutsTop :
      (nb : ℕ)
      → nb % 16 ≡ 0
      → 0 < nb
      → nb < s.topsize
      → Returns (λ mem s'. (mem ≡ s.top + 16) × CutsTop s nb s') (malloc_rest nb s)
  unfolding malloc_rest
  malloc_rest-CutsTop nb al pos fit =
      rw (lt→leb nb s.dvsize (omega (arith, only.dvsize)), lt→ltb nb s.topsize fit)
        (split_top-CutsTop s nb t al pos fit)

  malloc_locked-CutsTop :
      (bytes : ℕ)
      → bytes < max_request
      → request2size bytes < s.topsize
      → Returns
          (λ mem s'. (mem ≡ s.top + 16) × CutsTop s (request2size bytes) s')
          (malloc_locked bytes s)
  malloc_locked-CutsTop bytes h fit =
      let size = request2size-IsLeast bytes h in
      rw (malloc_locked-malloc_rest s only bytes h)
        (malloc_rest-CutsTop (request2size bytes) size.0 (omega (arith, size.1)) fit)

-- Ready for a call of one thread: the parameters are initialised and the lock is free.
pub record IsReady (s : State) : Type 0 where
  pub initialised : s.mparams.magic ≢ 0
  pub unlocked : s.mutex ≡ 0

-- The lock does not matter to the descriptions.
pub IsTop-mutex : (s : State) (m : ℕ) → IsTop s → IsTop (record s { mutex = m })
IsTop-mutex s m t = record {
  aligned = t.aligned;
  size_aligned = t.size_aligned;
  room = t.room;
  head = t.head;
}

pub OnlyTop-mutex : (s : State) (m : ℕ) → OnlyTop s → OnlyTop (record s { mutex = m })
OnlyTop-mutex s m o = record {
  smallmap = o.smallmap;
  treemap = o.treemap;
  dv = o.dv;
  dvsize = o.dvsize;
}

CutsTop-mutex :
    (s : State) (m nb : ℕ) (s' : State)
    → s.mutex ≡ 0
    → CutsTop (record s { mutex = m }) nb s'
    → CutsTop s nb (record s' { mutex = 0 })
CutsTop-mutex s m nb s' free c = record {
  rest =
      ap {A = State} (λ r. record r { mutex = 0 }) c.rest
      ∙ ap (λ k. record s { top = s.top + nb; topsize = s.topsize - nb; mem = s'.mem; mutex = k })
          (sym free);
  chunk = c.chunk;
  remainder = c.remainder;
  words = c.words;
}

-- In an initialised state whose lock is free, where nothing but a well-formed top is free: for
-- every request below MAX_REQUEST whose padded size is smaller than top, malloc returns the memory
-- of the chunk at the old top; that chunk is in use with the padded size, top is what is left
-- behind it, and no other word or field has changed.
pub dlmalloc-CutsTop :
    (s : State) (bytes : ℕ)
    → IsReady s
    → OnlyTop s
    → IsTop s
    → bytes < max_request
    → request2size bytes < s.topsize
    → Returns (λ mem s'. (mem ≡ s.top + 16) × CutsTop s (request2size bytes) s') (dlmalloc bytes s)
unfolding dlmalloc
dlmalloc-CutsTop s bytes ready only t h fit = rw (ne→== s.mparams.magic 0 ready.initialised) (
    locked (λ mem s'. (mem ≡ s.top + 16) × CutsTop s (request2size bytes) s') (malloc_locked bytes)
      s ready.unlocked
      (λ m.
        mono
          (malloc_locked-CutsTop (record s { mutex = m }) (OnlyTop-mutex s m only)
            (IsTop-mutex s m t) bytes h fit)
          (λ mem s' q. (
            ap (λ (r : State). r.mflags) q.1.rest,
            ap (λ (r : State). r.mutex) q.1.rest,
            (q.0, CutsTop-mutex s m (request2size bytes) s' ready.unlocked q.1),
          ))))
