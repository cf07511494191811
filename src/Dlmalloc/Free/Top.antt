-- ===== src/Dlmalloc/Free/Top.antt =====
-- Freeing the chunk in front of top.
use mathlib.Core.Path.{subst}
use mosalloc_rs.Base.{
  ℕ, ◌+◌, ◌-◌, ◌%◌, ◌≤◌, ◌<◌, ◌≡◌, ◌≢◌, refl, sym, ap, ◌∙◌, arith, leb, true, false, add64, ne→==,
  eq→==, lt→ltb, le→ltb, le→leb, Bool-cases, inl, inr,
}
use mosalloc_rs.Dlmalloc.State.{State, Mem, abort, head_of, ◌>>=◌, ◌>>◌}
use mosalloc_rs.Dlmalloc.State.Returns.{Returns, returns, bind, mono, aborts}
use mosalloc_rs.Dlmalloc.Chunk.{head_size, head_is_inuse, head_pinuse, head_cinuse}
use mosalloc_rs.Dlmalloc.Malloc.Top.{
  IsTop, CutsTop, IsReady, IsTop-mutex, OnlyTop, dlmalloc-CutsTop,
}
use mosalloc_rs.Dlmalloc.Params.Lock.{locked_unit, locked-abort}
use mosalloc_rs.Dlmalloc.Sizes.{mem2chunk, request2size, max_request}
use mosalloc_rs.Dlmalloc.Sizes.Bounds.{request2size-IsLeast, mem2chunk_lem}
use mosalloc_rs.Dlmalloc.Malloc.{dlmalloc}
use mosalloc_rs.Dlmalloc.Free.{free_locked, dlfree}

-- Top may be grown without a trim: it is no designated victim, not below the least address of the
-- system's memory, and not above the size at which memory is given back.
pub record KeepsTop (s : State) : Type 0 where
  pub not_dv : s.top ≢ s.dv
  pub address : s.least_addr ≤ s.top
  pub no_trim : s.topsize ≤ s.trim_check

-- `s'` is `s` but for the head word of a chunk `nb` behind top.
pub record RestoresTop (s : State) (nb : ℕ) (s' : State) : Type 0 where
  pub rest : s' ≡ record s { mem = s'.mem }
  pub words : (a : ℕ) → a ≢ head_of (s.top + nb) → s'.mem a ≡ s.mem a

free_cut :
    (s : State) (m : Mem) (nb : ℕ)
    → IsTop s
    → KeepsTop s
    → nb % 16 ≡ 0
    → 0 < nb
    → nb < s.topsize
    → CutsTop s nb (record s { top = s.top + nb; topsize = s.topsize - nb; mem = m })
    → Returns
        (λ _ s'. RestoresTop s nb s')
        (free_locked s.top (record s { top = s.top + nb; topsize = s.topsize - nb; mem = m }))
unfolding free_locked
free_cut s m nb t keep al pos fit cut =
    let size : head_size (nb + 3) ≡ nb = omega arith in
    let used : head_is_inuse (nb + 3) ≡ true = ground arith in
    let before : head_pinuse (nb + 3) ≡ true = ground arith in
    let place : add64 s.top nb ≡ s.top + nb = omega (arith, t.room) in
    let odd : head_pinuse (s.topsize - nb + 1) ≡ true = ground (arith, t.size_aligned) in
    let unused : head_cinuse (s.topsize - nb + 1) ≡ false = ground (arith, t.size_aligned) in
    let whole : add64 (s.topsize - nb) nb ≡ s.topsize = omega (arith, t.room) in
    rw
      (
        cut.chunk,
        size,
        place,
        le→leb s.least_addr s.top keep.address,
        used,
        before,
        lt→ltb s.top (s.top + nb) (omega arith),
        cut.remainder,
        odd,
        unused,
        eq→== (s.top + nb) (s.top + nb) refl,
        whole,
        ne→== s.top s.dv keep.not_dv,
        le→ltb s.trim_check s.topsize keep.no_trim,
      )
      (returns (record {
        rest = refl;
        words = λ a off. ground (arith, cut.words a, t.head, t.size_aligned);
      }))

KeepsTop-mutex : (s : State) (m : ℕ) → KeepsTop s → KeepsTop (record s { mutex = m })
KeepsTop-mutex s m k = record { not_dv = k.not_dv; address = k.address; no_trim = k.no_trim }

CutsTop-both :
    (s : State) (m nb : ℕ) (s' : State)
    → CutsTop s nb s'
    → CutsTop (record s { mutex = m }) nb (record s' { mutex = m })
CutsTop-both s m nb s' c = record {
  rest = ap {A = State} (λ r. record r { mutex = m }) c.rest;
  chunk = c.chunk;
  remainder = c.remainder;
  words = c.words;
}

RestoresTop-mutex :
    (s : State) (m nb : ℕ) (s' : State)
    → s.mutex ≡ 0
    → RestoresTop (record s { mutex = m }) nb s'
    → RestoresTop s nb (record s' { mutex = 0 })
RestoresTop-mutex s m nb s' free r = record {
  rest =
      ap {A = State} (λ q. record q { mutex = 0 }) r.rest
      ∙ ap {A = ℕ} (λ k. record s { mem = s'.mem; mutex = k }) (sym free);
  words = r.words;
}

module _ (s : State) (nb : ℕ) (t : IsTop s) (keep : KeepsTop s) (al : nb % 16 ≡ 0) (pos : 0 < nb)
    (fit : nb < s.topsize) (ready : IsReady s) where
  locked_cut :
      (s' : State) (m : ℕ)
      → CutsTop s nb s'
      → Returns
          (λ _ r. RestoresTop (record s { mutex = m }) nb r)
          (free_locked s.top (record s' { mutex = m }))
  locked_cut s' m cut =
      let both = CutsTop-both s m nb s' cut in
      let run =
        free_cut (record s { mutex = m }) s'.mem nb (IsTop-mutex s m t) (KeepsTop-mutex s m keep) al
          pos fit (subst (CutsTop (record s { mutex = m }) nb) both.rest both) in
      subst
        (λ (r : State).
          Returns (λ _ q. RestoresTop (record s { mutex = m }) nb q) (free_locked s.top r))
        (sym both.rest) run

  -- The chunk cut off top goes back to top.
  dlfree-RestoresTop :
      (s' : State) → CutsTop s nb s' → Returns (λ _ r. RestoresTop s nb r) (dlfree (s.top + 16) s')
  unfolding dlfree
  dlfree-RestoresTop s' cut =
      let chunk : mem2chunk (s.top + 16) ≡ s.top = mem2chunk_lem s.top (omega (arith, t.room)) in
      rw (ne→== (s.top + 16) 0 (omega arith), chunk)
        (locked_unit (RestoresTop s nb) (free_locked s.top) s'
          (ap (λ (r : State). r.mutex) cut.rest ∙ ready.unlocked)
          (λ m. mono (locked_cut s' m cut) (λ _ r q. (
            ap (λ (r : State). r.mflags) q.rest ∙ sym (ap (λ (r : State). r.mflags) cut.rest),
            ap (λ (r : State). r.mutex) q.rest,
            RestoresTop-mutex s m nb r ready.unlocked q,
          ))))

  -- Once it is part of top again, its head says that it is not in use.
  free_again :
      (m : ℕ) (r : State) → RestoresTop s nb r → free_locked s.top (record r { mutex = m }) ≡ abort
  unfolding free_locked
  free_again m r q =
      let head : r.mem (head_of s.top) ≡ s.topsize + 1 =
        q.words (head_of s.top) (omega arith) ∙ t.head in
      let unused : head_is_inuse (s.topsize + 1) ≡ false = ground (arith, t.size_aligned) in
      rw (head, unused)
        (elim (Bool-cases (leb r.least_addr s.top)) [ inl a ↦ rw a refl | inr a ↦ rw a refl ])

  dlfree-free_again : (r : State) → RestoresTop s nb r → dlfree (s.top + 16) r ≡ abort
  unfolding dlfree
  dlfree-free_again r q =
      rw (ne→== (s.top + 16) 0 (omega arith), mem2chunk_lem s.top (omega (arith, t.room)))
        (locked-abort (λ _. Unit) (free_locked s.top) r
          (ap (λ (r : State). r.mutex) q.rest ∙ ready.unlocked) (λ m. free_again m r q))

-- In an initialised state whose lock is free, where nothing but a well-formed top is free, top
-- lies at or above the least address, differs from dv and does not exceed the trim threshold: for
-- every request below MAX_REQUEST whose padded size is smaller than top, malloc followed by free
-- of its result returns, and the state is the one from before in all but the head word behind the
-- freed chunk, inside top.
pub dlfree-dlmalloc :
    (s : State) (bytes : ℕ)
    → IsReady s
    → OnlyTop s
    → IsTop s
    → KeepsTop s
    → bytes < max_request
    → request2size bytes < s.topsize
    → Returns (λ _ s'. RestoresTop s (request2size bytes) s') ((dlmalloc bytes >>= dlfree) s)
dlfree-dlmalloc s bytes ready only t keep h fit =
    let size = request2size-IsLeast bytes h in
    bind (dlmalloc-CutsTop s bytes ready only t h fit) (λ mem s' q. rw q.0 (
      dlfree-RestoresTop s (request2size bytes) t keep size.0 (omega (arith, size.1)) fit ready s'
        q.1))

-- In an initialised state whose lock is free, where nothing but a well-formed top is free, top
-- lies at or above the least address, differs from dv and does not exceed the trim threshold: for
-- every request below MAX_REQUEST whose padded size is smaller than top, malloc followed by two
-- frees of its result aborts.
pub dlfree-dlfree :
    (s : State) (bytes : ℕ)
    → IsReady s
    → OnlyTop s
    → IsTop s
    → KeepsTop s
    → bytes < max_request
    → request2size bytes < s.topsize
    → (dlmalloc bytes >>= λ mem. dlfree mem >> dlfree mem) s ≡ abort
dlfree-dlfree s bytes ready only t keep h fit =
    let size = request2size-IsLeast bytes h in
    let nb = request2size bytes in
    aborts (dlmalloc-CutsTop s bytes ready only t h fit) (λ mem s' q. rw q.0 (
      aborts (dlfree-RestoresTop s nb t keep size.0 (omega (arith, size.1)) fit ready s' q.1)
        (λ _ r back.
          dlfree-free_again s nb t keep size.0 (omega (arith, size.1)) fit ready r back)))
