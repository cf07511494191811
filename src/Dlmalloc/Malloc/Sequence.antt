-- ===== src/Dlmalloc/Malloc/Sequence.antt =====
-- Requests served one after the other from the top chunk.
use mosalloc_rs.Base.{ℕ, ◌+◌, ◌-◌, ◌%◌, ◌<◌, ◌≡◌, refl, sym, ap, ◌∙◌, arith, List, [], ◌∷◌, All}
use mosalloc_rs.Dlmalloc.State.{State, Cmd, ◌>>=◌, pure, head_of}
use mosalloc_rs.Dlmalloc.State.Returns.{Returns, returns, bind}
use mosalloc_rs.Dlmalloc.Sizes.{request2size, max_request}
use mosalloc_rs.Dlmalloc.Sizes.Bounds.{request2size-IsLeast}
use mosalloc_rs.Dlmalloc.Malloc.{dlmalloc}
use mosalloc_rs.Dlmalloc.Malloc.Top.{IsTop, OnlyTop, IsReady, CutsTop, dlmalloc-CutsTop}

-- malloc for each of the requests.
abbrev pub malloc_each : List ℕ → Cmd (List ℕ)
malloc_each [] = pure []
malloc_each (bytes ∷ rest) = do mem ← dlmalloc bytes; mems ← malloc_each rest; pure (mem ∷ mems)

-- The payloads of chunks for the requests that stand one behind the other from `p` on.
abbrev pub tiles : ℕ → List ℕ → List ℕ
tiles p [] = []
tiles p (bytes ∷ rest) = (p + 16) ∷ tiles (p + request2size bytes) rest

abbrev pub total : List ℕ → ℕ
total [] = 0
total (bytes ∷ rest) = request2size bytes + total rest

-- Those chunks are in use, each with its size.
abbrev pub InUse : State → ℕ → List ℕ → Type 0
InUse s p [] = Unit
InUse s p (bytes ∷ rest) =
    (s.mem (head_of p) ≡ request2size bytes + 3) × InUse s (p + request2size bytes) rest

-- Between `s` and `s'` chunks for the requests were cut off top, which is as fit to serve others.
pub record Serves (s : State) (requests : List ℕ) (s' : State) : Type 0 where
  pub ready : IsReady s'
  pub only : OnlyTop s'
  pub is_top : IsTop s'
  pub top : s'.top ≡ s.top + total requests
  pub topsize : s'.topsize ≡ s.topsize - total requests
  pub chunks : InUse s' s.top requests
  pub below : (a : ℕ) → a < head_of s.top → s'.mem a ≡ s.mem a

module _ (s : State) (nb : ℕ) (s' : State) (c : CutsTop s nb s') where
  pub CutsTop-IsReady : IsReady s → IsReady s'
  CutsTop-IsReady r = record {
    initialised = λ z. r.initialised (sym (ap {A = State} (λ x. x.mparams.magic) c.rest) ∙ z);
    unlocked = ap {A = State} (λ x. x.mutex) c.rest ∙ r.unlocked;
  }

  pub CutsTop-OnlyTop : OnlyTop s → OnlyTop s'
  CutsTop-OnlyTop o = record {
    smallmap = ap {A = State} (λ x. x.smallmap) c.rest ∙ o.smallmap;
    treemap = ap {A = State} (λ x. x.treemap) c.rest ∙ o.treemap;
    dv = ap {A = State} (λ x. x.dv) c.rest ∙ o.dv;
    dvsize = ap {A = State} (λ x. x.dvsize) c.rest ∙ o.dvsize;
  }

  pub CutsTop-IsTop : nb % 16 ≡ 0 → nb < s.topsize → IsTop s → IsTop s'
  CutsTop-IsTop al fit t =
      let top = ap {A = State} (λ x. x.top) c.rest in
      let topsize = ap {A = State} (λ x. x.topsize) c.rest in
      record {
        aligned = omega (arith, top, t.aligned);
        size_aligned = omega (arith, topsize, t.size_aligned);
        room = omega (arith, top, topsize, t.room);
        head = rw (top, topsize) c.remainder;
      }

-- In an initialised state whose lock is free, where nothing but a well-formed top is free: for any
-- list of requests below MAX_REQUEST whose padded sizes sum up to less than top, malloc for one
-- after the other returns chunks that stand behind each other from the old top on. In the end each
-- of them is in use with its padded size, top is smaller by their sum and begins behind the last,
-- no word below the first of them has changed, and the state is again one of this kind.
pub malloc_each-Serves :
    (requests : List ℕ) (s : State)
    → IsReady s
    → OnlyTop s
    → IsTop s
    → All (λ bytes. bytes < max_request) requests
    → total requests < s.topsize
    → Returns
        (λ mems s'. (mems ≡ tiles s.top requests) × Serves s requests s')
        (malloc_each requests s)
malloc_each-Serves [] s r o t h fit = returns (
  refl,
  record {
    ready = r;
    only = o;
    is_top = t;
    top = omega arith;
    topsize = omega arith;
    chunks = tt;
    below = λ a l. refl;
  },
)
malloc_each-Serves (bytes ∷ rest) s r o t h fit =
    let nb = request2size bytes in
    let size = request2size-IsLeast bytes h.0 in
    bind (dlmalloc-CutsTop s bytes r o t h.0 (omega arith)) (λ mem s1 q.
      let c = q.1 in
      let top = ap {A = State} (λ x. x.top) c.rest in
      let topsize = ap {A = State} (λ x. x.topsize) c.rest in
      bind
        (malloc_each-Serves rest s1 (CutsTop-IsReady s nb s1 c r) (CutsTop-OnlyTop s nb s1 c o)
          (CutsTop-IsTop s nb s1 c size.0 (omega arith) t) h.1 (omega (arith, topsize)))
        (λ mems s2 p.
          let v = p.1 in
          returns (
            rw (q.0, p.0, top) refl,
            record {
              ready = v.ready;
              only = v.only;
              is_top = v.is_top;
              top = omega (arith, v.top, top);
              topsize = omega (arith, v.topsize, topsize);
              chunks = (
                v.below (head_of s.top) (omega (arith, top, size.1)) ∙ c.chunk,
                rw (top) at v.chunks,
              );
              below = λ a l.
                  v.below a (omega (arith, top)) ∙ c.words a (omega arith) (omega (arith, size.1));
            },
          )))
