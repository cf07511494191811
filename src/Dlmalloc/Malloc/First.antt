-- ===== src/Dlmalloc/Malloc/First.antt =====
-- The first malloc of a program.
use mosalloc_rs.Base.{
  ℕ, ◌+◌, ◌^◌, ◌≤◌, ◌<◌, ◌≡◌, sym, ap, ◌∙◌, arith, ne→==, lt→leb, le→ltb, if◌then◌else◌, ◌==◌, ◌||◌,
  ltb,
}
use mosalloc_rs.Dlmalloc.State.{State, Mem}
use mosalloc_rs.Dlmalloc.State.Returns.{Returns, mono}
use mosalloc_rs.Dlmalloc.Sizes.{request2size, max_request, half_max_size_t}
use mosalloc_rs.Dlmalloc.Sizes.Bounds.{request2size-IsLeast}
use mosalloc_rs.Dlmalloc.Params.{granularity_align, max_release_check_rate}
use mosalloc_rs.Dlmalloc.Params.Lock.{locked}
use mosalloc_rs.Dlmalloc.SysAlloc.First.{IsFirst}
use mosalloc_rs.Dlmalloc.SysAlloc.NewHeap.{IsNew, counted, morecored, sys_alloc-IsFirst}
use mosalloc_rs.Dlmalloc.Malloc.{malloc_rest, malloc_locked, dlmalloc}
use mosalloc_rs.Dlmalloc.Malloc.Top.{OnlyTop, CutsTop, OnlyTop-mutex, malloc_locked-malloc_rest}

-- A chunk of `nb` bytes at `base` was cut off a first segment of `size` bytes.
abbrev pub First : State → ℕ → ℕ → ℕ → Mem → ℕ → State → Type 0
First s nb base size m mem s' =
    (mem ≡ base + 16)
    × ((t : State) × IsFirst (counted (morecored s m) size) base size t × CutsTop t nb s')

IsNew-mutex :
    (s : State) (k base size : ℕ) (m : Mem)
    → IsNew s base size m
    → IsNew (record s { mutex = k }) base size m
IsNew-mutex s k base size m n = record {
  initialised = n.initialised;
  no_top = n.no_top;
  no_topsize = n.no_topsize;
  contiguous = n.contiguous;
  unlocked = n.unlocked;
  no_limit = n.no_limit;
  breaks =
      let b = n.breaks in
      record {
        between = b.between;
        first = b.first;
        second = b.second;
        page = b.page;
        works = b.works;
      };
  aligned = n.aligned;
  room = n.room;
  apart = n.apart;
}

IsFirst-mutex :
    (s : State) (k base size : ℕ) (t : State)
    → s.mutex ≡ 0
    → IsFirst (record s { mutex = k }) base size t
    → IsFirst s base size (record t { mutex = 0 })
IsFirst-mutex s k base size t free f = record {
  top = f.top;
  topsize = f.topsize;
  head = f.head;
  foot = f.foot;
  segment = f.segment;
  rings = f.rings;
  rest =
      ap {A = State} (λ r. record r { mutex = 0 }) f.rest
      ∙ ap
          (λ z. record s {
            top = t.top;
            topsize = t.topsize;
            least_addr = if s.least_addr == 0 || ltb base s.least_addr then base else s.least_addr;
            magic = s.mparams.magic;
            release_checks = max_release_check_rate;
            trim_check = s.mparams.trim_threshold;
            mem = t.mem;
            mutex = z;
          })
          (sym free);
}

CutsTop-unlock :
    (t : State) (nb : ℕ) (s' : State)
    → CutsTop t nb s'
    → CutsTop (record t { mutex = 0 }) nb (record s' { mutex = 0 })
CutsTop-unlock t nb s' c = record {
  rest = ap {A = State} (λ r. record r { mutex = 0 }) c.rest;
  chunk = c.chunk;
  remainder = c.remainder;
  words = c.words;
}

module _ (bytes k base size : ℕ) (m : Mem) (h : bytes < max_request) where
  malloc_locked-IsFirst :
      (s : State)
      → 4 ≤ k
      → size ≡ granularity_align s (request2size bytes + 96)
      → s.mparams.granularity ≡ 2 ^ k
      → request2size bytes + 96 + 2 ^ k < half_max_size_t
      → OnlyTop s
      → IsNew s base size m
      → Returns (First s (request2size bytes) base size m) (malloc_locked bytes s)
  unfolding malloc_rest
  malloc_locked-IsFirst s low asize unit small only new =
      let least = request2size-IsLeast bytes h in
      let no_dv = lt→leb (request2size bytes) s.dvsize (omega (arith, least.1, only.dvsize)) in
      let no_top = le→ltb (request2size bytes) s.topsize (omega (arith, new.no_topsize)) in
      rw (malloc_locked-malloc_rest s only bytes h, no_dv, no_top)
        (sys_alloc-IsFirst s (request2size bytes) base m k size low asize unit small least.0
          (omega (arith, least.1)) new)

  pub dlmalloc-IsFirst :
      (s : State)
      → 4 ≤ k
      → size ≡ granularity_align s (request2size bytes + 96)
      → s.mparams.granularity ≡ 2 ^ k
      → request2size bytes + 96 + 2 ^ k < half_max_size_t
      → s.mutex ≡ 0
      → OnlyTop s
      → IsNew s base size m
      → Returns (First s (request2size bytes) base size m) (dlmalloc bytes s)
  unfolding dlmalloc
  dlmalloc-IsFirst s low asize unit small free only new =
      rw (ne→== s.mparams.magic 0 new.initialised) (
        locked (First s (request2size bytes) base size m) (malloc_locked bytes) s free (λ z.
          mono
            (malloc_locked-IsFirst (record s { mutex = z }) low asize unit small
              (OnlyTop-mutex s z only) (IsNew-mutex s z base size m new))
            (λ mem s' q.
              let t = q.1.0 in
              let f = q.1.1 in
              let c = q.1.2 in
              (
                ap (λ (r : State). r.mflags) c.rest ∙ ap (λ (r : State). r.mflags) f.rest,
                ap (λ (r : State). r.mutex) c.rest ∙ ap (λ (r : State). r.mutex) f.rest,
                (
                  q.0,
                  (
                    record t { mutex = 0 },
                    IsFirst-mutex (counted (morecored s m) size) z base size t free f,
                    CutsTop-unlock t (request2size bytes) s' c,
                  ),
                ),
              ))))
