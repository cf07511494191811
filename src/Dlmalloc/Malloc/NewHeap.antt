-- ===== src/Dlmalloc/Malloc/NewHeap.antt =====
-- A sequence of requests on a heap without memory.
use mosalloc_rs.Base.{List, ◌∷◌, All, ℕ, ◌+◌, ◌^◌, ◌≤◌, ◌<◌, ◌≡◌, refl, sym, ap, ◌∙◌, arith}
use mosalloc_rs.Dlmalloc.State.{State, Mem, head_of}
use mosalloc_rs.Dlmalloc.State.Returns.{Returns, returns, bind}
use mosalloc_rs.Dlmalloc.Sizes.{request2size, max_request, half_max_size_t}
use mosalloc_rs.Dlmalloc.Sizes.Bounds.{request2size-IsLeast}
use mosalloc_rs.Dlmalloc.Params.{align_to, granularity_align}
use mosalloc_rs.Dlmalloc.Params.Align.{aligned_size}
use mosalloc_rs.Dlmalloc.SysAlloc.First.{IsFirst-IsTop}
use mosalloc_rs.Dlmalloc.SysAlloc.NewHeap.{IsNew, counted, morecored}
use mosalloc_rs.Dlmalloc.Malloc.Sequence.{
  malloc_each, tiles, total, InUse, CutsTop-IsReady, CutsTop-OnlyTop, CutsTop-IsTop,
  malloc_each-Serves,
}
use mosalloc_rs.Dlmalloc.Malloc.Top.{IsReady, OnlyTop}
use mosalloc_rs.Dlmalloc.Malloc.First.{First, dlmalloc-IsFirst}

-- What is left of a first segment after a chunk serves further requests.
First-IsReady :
    (s : State) (nb base size : ℕ) (m : Mem) (mem : ℕ) (s' : State)
    → IsReady s
    → First s nb base size m mem s'
    → IsReady s'
First-IsReady s nb base size m mem s' r (e, (t, f, c)) = CutsTop-IsReady t nb s' c (record {
  initialised = λ z. r.initialised (sym (ap {A = State} (λ x. x.mparams.magic) f.rest) ∙ z);
  unlocked = ap {A = State} (λ x. x.mutex) f.rest ∙ r.unlocked;
})

First-OnlyTop :
    (s : State) (nb base size : ℕ) (m : Mem) (mem : ℕ) (s' : State)
    → OnlyTop s
    → First s nb base size m mem s'
    → OnlyTop s'
First-OnlyTop s nb base size m mem s' o (e, (t, f, c)) = CutsTop-OnlyTop t nb s' c (record {
  smallmap = ap {A = State} (λ x. x.smallmap) f.rest ∙ o.smallmap;
  treemap = ap {A = State} (λ x. x.treemap) f.rest ∙ o.treemap;
  dv = ap {A = State} (λ x. x.dv) f.rest ∙ o.dv;
  dvsize = ap {A = State} (λ x. x.dvsize) f.rest ∙ o.dvsize;
})

-- On an initialised state whose locks are free, with no bin marked, no designated victim and no
-- top, without a footprint limit and not set to noncontiguous, whose granularity is a power of two
-- from 16 on, and where MORECORE moves the break from an aligned page by the bytes asked for
-- (apart from the state, inside the address space): take any non-empty list of requests below
-- MAX_REQUEST, the padded first one with 96 bytes and the granularity below half of the address
-- space, whose padded sizes and the 80 bytes of the foot sum up to less than the segment that the
-- first request gets (its padded size and 96 bytes, rounded up to the granularity). Then malloc
-- for one after the other returns chunks that stand behind each other from the old break on, and
-- in the end each of them is in use with its padded size.
pub malloc_each-new_heap :
    (s : State) (bytes : ℕ) (requests : List ℕ) (k base size : ℕ) (m : Mem)
    → 4 ≤ k
    → size ≡ granularity_align s (request2size bytes + 96)
    → s.mparams.granularity ≡ 2 ^ k
    → request2size bytes + 96 + 2 ^ k < half_max_size_t
    → s.mutex ≡ 0
    → OnlyTop s
    → IsNew s base size m
    → All (λ b. b < max_request) (bytes ∷ requests)
    → total (bytes ∷ requests) + 80 < size
    → Returns
        (λ mems s'. (mems ≡ tiles base (bytes ∷ requests)) × InUse s' base (bytes ∷ requests))
        (malloc_each (bytes ∷ requests) s)
malloc_each-new_heap s bytes requests k base size m low asize unit small free only new h fit =
    let nb = request2size bytes in
    let least = request2size-IsLeast bytes h.0 in
    let whole =
      aligned_size k (nb + 96) size low (asize ∙ ap (λ u. align_to u (nb + 96)) unit) small in
    bind (dlmalloc-IsFirst bytes k base size m h.0 s low asize unit small free only new)
      (λ mem s1 q.
        let f = q.1.1 in
        let c = q.1.2 in
        let top = ap {A = State} (λ x. x.top) c.rest in
        let topsize = ap {A = State} (λ x. x.topsize) c.rest in
        let place : s1.top ≡ base + nb = omega (arith, top, f.top) in
        bind
          (malloc_each-Serves requests s1
            (First-IsReady s nb base size m mem s1
              (record { initialised = new.initialised; unlocked = free }) q)
            (First-OnlyTop s nb base size m mem s1 only q)
            (CutsTop-IsTop q.1.0 nb s1 c least.0 (omega (arith, f.topsize)) (
              IsFirst-IsTop (counted (morecored s m) size) base size q.1.0 new.aligned whole.0
                (omega arith) new.room f))
            h.1 (omega (arith, topsize, f.topsize)))
          (λ mems s2 p.
            let v = p.1 in
            returns (
              rw (q.0, p.0, place) refl,
              (
                v.below (head_of base) (omega (arith, place, least.1)) ∙ (rw f.top at c.chunk),
                rw (place) at v.chunks,
              ),
            )))
