-- ===== src/Mosalloc/Internal/Resize.antt =====
-- realloc in the arena.
use mosalloc_rs.Base.{
  ℕ, ◌+◌, ◌-◌, ◌%◌, ◌^◌, ◌≤◌, ◌<◌, ◌≡◌, refl, ap, ◌∙◌, ◌⊎◌, inl, inr, arith, List, ◌∷◌, ◌++◌,
  All-mono, false, ◌&&◌, Option, none, some, if◌then◌else◌, ◌==◌, leb, ltb, ne→==, lt→ltb, lt→leb,
  le→leb, min,
}
use native.Mathlib.Decide.{dec_lt}
use mosalloc_rs.Mosalloc.FreeMap.{Range}
use mosalloc_rs.Mosalloc.System.{Sys, segfault, ◌>>=◌, pure, map_failed}
use mosalloc_rs.Mosalloc.System.Ends.{Ends, ends, bind}
use mosalloc_rs.Mosalloc.Misc.Aligned.{power_passes}
use mosalloc_rs.Mosalloc.Internal.{
  InternalAllocator, Layout, arena_size, alloc, realloc, resize, copy_nonoverlapping, move_to_new,
  from_size_align, realloc_arena,
}
use mosalloc_rs.Mosalloc.Internal.Blocks.{IsArena, IsInside, AllApart-append, All-without}
use mosalloc_rs.Mosalloc.Internal.Live.{
  IsSmall, block, below_top, page_small, offset, Gives, alloc_helper-Gives, alloc_helper-full,
}

IsArena-memory :
    (a : InternalAllocator) (memory : ℕ → ℕ) (bs : List Range)
    → IsArena a bs
    → IsArena (record a { memory = memory }) bs
IsArena-memory a memory bs w = record {
  aligned = w.aligned;
  base = w.base;
  bound = w.bound;
  top = w.top;
  blocks = w.blocks;
  disjoint = w.disjoint;
}

abbrev pub sized : Layout → ℕ → Layout
sized l n = record { size = n; align = l.align }

module _ (a : InternalAllocator) (xs : List Range) (ptr : ℕ) (ys : List Range) (l : Layout)
    (k new_size : ℕ) (w : IsArena a (xs ++ block ptr l.size ∷ ys)) (old : IsSmall l k)
    (new : IsSmall (sized l new_size) k) (al : ptr % l.align ≡ 0) (s : Sys) where
  -- The room that alloc needs for the block of the new size.
  abbrev pub needed : ℕ
  needed = offset a (xs ++ block ptr l.size ∷ ys) w (sized l new_size) k new + new_size

  -- The block is not the last one, or does not fit behind its start, and there is no other room.
  abbrev pub Stuck : Type 0
  Stuck = (resize a ptr l.size new_size ≡ none) × (arena_size < needed)

  small_sizes :
      realloc a ptr l new_size s ≡ realloc_arena a ptr l new_size (resize a ptr l.size new_size) s
  unfolding realloc
  small_sizes = rw (lt→leb 4096 l.size old.size, lt→leb 4096 new_size new.size) refl

  layout_fits : from_size_align new_size l.align ≡ some (sized l new_size)
  layout_fits =
      rw
        (
          old.align,
          power_passes k (page_small k old.power),
          le→leb (new_size + 2 ^ k) (2 ^ 63) (omega (arith, new.size, page_small k old.power)),
        )
        refl

  here : IsInside a (block ptr l.size)
  here = (All-without (IsInside a) xs (block ptr l.size) ys w.blocks).0

  not_null : (ptr == 0) ≡ false
  not_null = ne→== ptr 0 (omega (arith, here, w.base))

  not_failed : (ptr == map_failed) ≡ false
  not_failed = ne→== ptr map_failed (omega (arith, here, w.bound, w.top))

  copies : 0 < min l.size new_size
  copies = omega (arith, old.some_size, new.some_size)

  -- The null pointer that alloc returns is written to.
  pub realloc-Stuck : Stuck → realloc a ptr l new_size s ≡ segfault
  unfolding alloc
  realloc-Stuck (moves, full) =
      small_sizes
      ∙ rw
          (
            moves,
            layout_fits,
            alloc_helper-full a (xs ++ block ptr l.size ∷ ys) w (sized l new_size) k new false s
                full,
            not_null,
            not_failed,
            lt→ltb 0 (min l.size new_size) copies,
          )
          refl

  -- The new block has the bytes of the old one, as far as both reach.
  abbrev pub Keeps : InternalAllocator → ℕ → Type 0
  Keeps a' p = (i : ℕ) → i < min l.size new_size → a'.memory (p + i) ≡ a.memory (ptr + i)

  abbrev pub KeepsOthers : InternalAllocator → ℕ → Type 0
  KeepsOthers a' p = (q : ℕ) → (q < p) ⊎ (p + min l.size new_size ≤ q) → a'.memory q ≡ a.memory q

  -- The old block is replaced by one of the new size and the same alignment.
  abbrev pub Resized : InternalAllocator × ℕ → Type 0
  Resized out =
      IsArena out.0 (block out.1 new_size ∷ xs ++ ys)
      × (out.0 ≡ record a { idx = out.0.idx; memory = out.0.memory })
      × (out.1 % l.align ≡ 0)
      × Keeps out.0 out.1
      × KeepsOthers out.0 out.1

  resized :
      (idx : ℕ)
      → resize a ptr l.size new_size ≡ some idx
      → (ptr + l.size ≡ a.arena + a.idx) × (ptr + new_size ≡ a.arena + idx) × (idx ≤ arena_size)
  resized idx e = ground (arith, here, w.bound, w.top, old.size, new.size)

  in_place :
      (idx : ℕ) → resize a ptr l.size new_size ≡ some idx → Resized (record a { idx = idx }, ptr)
  in_place idx e =
      let (last, end, fit) = resized idx e in
      let (here, others) = All-without (IsInside a) xs (block ptr l.size) ys w.blocks in
      let (clear, disjoint) = AllApart-append xs (block ptr l.size) ys w.disjoint in
      let below = below_top a ptr l.size last here (xs ++ ys) others clear in
      (
        record {
          aligned = w.aligned;
          base = w.base;
          bound = w.bound;
          top = fit;
          blocks = (
            (here.0, omega (arith, new.some_size), omega (arith, end)),
            All-mono (xs ++ ys) (λ b q. (q.0, q.1, omega (arith, q.2))) below,
          );
          disjoint = (All-mono (xs ++ ys) (λ b q. inr (omega (arith, q.2))) below, disjoint);
        },
        refl,
        al,
        λ i h. refl,
        λ q h. refl,
      )

  copied :
      (out : InternalAllocator × ℕ) (s1 : Sys)
      → needed ≤ arena_size
      → s1 ≡ s
      → Gives a (xs ++ block ptr l.size ∷ ys) w (sized l new_size) k new false out
      → Ends
          (λ o s'. (s' ≡ s) × Resized o)
          ((copy_nonoverlapping ptr out.1 (min l.size new_size) out.0 >>= (λ c. pure (c, out.1)))
            s1)
  copied out s1 room same (inl (null, full)) = absurd (omega arith)
  copied out s1 room same (inr (aligned, arena, rest, bytes)) =
      let m : ℕ → ℕ = λ p.
        if leb out.1 p && ltb p (out.1 + min l.size new_size)
        then out.0.memory (ptr + (p - out.1))
        else out.0.memory p in
      let fresh = arena.blocks.0 in
      let (others, without) =
        All-without (IsInside out.0) (block out.1 new_size ∷ xs) (block ptr l.size) ys
          arena.blocks in
      let (clear, disjoint) =
        AllApart-append (block out.1 new_size ∷ xs) (block ptr l.size) ys arena.disjoint in
      rw
        (
          not_null,
          not_failed,
          ne→== out.1 0 (omega (arith, fresh, arena.base)),
          ne→== out.1 map_failed (omega (arith, fresh, arena.bound, arena.top)),
        )
        (ends (
          same,
          (
            IsArena-memory out.0 m (block out.1 new_size ∷ xs ++ ys) record {
              aligned = arena.aligned;
              base = arena.base;
              bound = arena.bound;
              top = arena.top;
              blocks = without;
              disjoint = disjoint;
            },
            ap (λ (z : InternalAllocator). record z { memory = m }) rest,
            aligned,
            λ i h.
                let back : out.1 + i - out.1 ≡ i = omega arith in
                rw
                  (
                    le→leb out.1 (out.1 + i) (omega arith),
                    lt→ltb (out.1 + i) (out.1 + min l.size new_size) (omega arith),
                    back,
                  )
                  (bytes (ptr + i)),
            λ q h.
                let outside : (leb out.1 q && ltb q (out.1 + min l.size new_size)) ≡ false =
                  ground (arith, h) in
                rw outside (bytes q),
          ),
        ))

  moved :
      needed ≤ arena_size → Ends (λ out s'. (s' ≡ s) × Resized out) (move_to_new a ptr l new_size s)
  unfolding alloc
  moved room = rw layout_fits (
      bind (alloc_helper-Gives a (xs ++ block ptr l.size ∷ ys) w (sized l new_size) k new false s)
        (λ out s1 q. copied out s1 room q.0 q.1))

  -- Where the blocks in use lie in the arena without overlap, realloc of an aligned one of them,
  -- both sizes between 1 and 4095 and the alignment a power of two up to 4096: either it returns an
  -- aligned block of the new size, apart from all other blocks, with the bytes of the old one as far
  -- as both reach, and no byte of the memory but these has changed. Or the block can not be resized
  -- in place, the arena has no room for the new one, and the process dies writing to the null
  -- pointer.
  pub realloc-Resized :
      Ends (λ out s'. (s' ≡ s) × Resized out) (realloc a ptr l new_size s)
      ⊎ (Stuck × (realloc a ptr l new_size s ≡ segfault))
  realloc-Resized = by_resize (resize a ptr l.size new_size) refl
    where
      by_resize :
          (r : Option ℕ)
          → resize a ptr l.size new_size ≡ r
          → Ends (λ out s'. (s' ≡ s) × Resized out) (realloc a ptr l new_size s)
            ⊎ (Stuck × (realloc a ptr l new_size s ≡ segfault))
      by_resize (some idx) e = inl (rw (small_sizes, e) (ends (refl, in_place idx e)))
      by_resize none e = elim (dec_lt arena_size needed) [
        | yes full ↦ inr ((e, full), realloc-Stuck (e, full))
        | no room ↦ inl (rw (small_sizes, e) (moved (omega arith)))
      ]
