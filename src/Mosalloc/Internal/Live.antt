-- ===== src/Mosalloc/Internal/Live.antt =====
-- alloc and dealloc in the arena.
use native.Mathlib.Nat.{pow-le-pow_right}
use mosalloc_rs.Base.{
  ℕ, ◌+◌, ◌-◌, ◌%◌, ◌^◌, ◌≤◌, ◌<◌, ◌≡◌, refl, ◌⊎◌, inl, inr, arith, List, [], ◌∷◌, ◌++◌, All,
  All-mono, Bool, ◌&&◌, if◌then◌else◌, ◌==◌, leb, ltb, add64, sub64, eq→==, ne→==, lt→ltb, le→ltb,
  lt→leb, Bool-cases,
}
use native.Mathlib.Decide.{dec_lt, ℕ_discrete}
use mosalloc_rs.Mosalloc.FreeMap.{Range}
use mosalloc_rs.Mosalloc.System.{Sys, ok, map_failed}
use mosalloc_rs.Mosalloc.System.Ends.{Ends, ends}
use mosalloc_rs.Mosalloc.Misc.Aligned.{round, align_up-power, round-mod, round_bounds}
use mosalloc_rs.Mosalloc.Internal.{
  InternalAllocator, Layout, arena_size, mmap_threshold, alloc_helper, dealloc,
}
use mosalloc_rs.Mosalloc.Internal.Blocks.{
  IsArena, AreApart, IsInside, AllApart-append, All-without, offset_aligned,
}

-- A layout that the arena serves: not empty, below the threshold, aligned to 2 ^ k.
pub record IsSmall (l : Layout) (k : ℕ) : Type 0 where
  pub some_size : 0 < l.size
  pub size : l.size < mmap_threshold
  pub align : l.align ≡ 2 ^ k
  pub power : k ≤ 12

abbrev pub block : ℕ → ℕ → Range
block ptr size = record { start = ptr; end = ptr + size }

power_small : (k : ℕ) → k ≤ 12 → 2 ^ k ≤ 4096
power_small k h = pow-le-pow_right (omega arith) h

pub page_small : (k : ℕ) → k ≤ 12 → 2 ^ k ≤ 2 ^ 30
page_small k h = omega (arith, power_small k h)

-- Blocks stay inside when `idx` moves up.
IsInside-more :
    (a : InternalAllocator) (idx : ℕ) (memory : ℕ → ℕ) (bs : List Range)
    → a.idx ≤ idx
    → All (IsInside a) bs
    → All (IsInside (record a { idx = idx; memory = memory })) bs
IsInside-more a idx memory bs h = All-mono bs (λ b q. (q.0, q.1, omega (arith, q.2)))

-- A new block above `idx`.
above-AreApart :
    (a : InternalAllocator) (p n : ℕ) (bs : List Range)
    → a.arena + a.idx ≤ p
    → All (IsInside a) bs
    → All (AreApart (block p n)) bs
above-AreApart a p n bs h = All-mono bs (λ b q. inr (omega (arith, q.2)))

module _ (a : InternalAllocator) (bs : List Range) (w : IsArena a bs) (l : Layout) (k : ℕ)
    (small : IsSmall l k) where
  abbrev pub offset : ℕ
  offset = round k (page_small k small.power) a.idx

  pushed :
      (memory : ℕ → ℕ)
      → offset + l.size ≤ arena_size
      → IsArena
          (record a { idx = offset + l.size; memory = memory })
          (block (a.arena + offset) l.size ∷ bs)
  pushed memory fit =
      let up = round_bounds k (page_small k small.power) a.idx in
      record {
        aligned = w.aligned;
        base = w.base;
        bound = w.bound;
        top = fit;
        blocks = (
          (omega arith, omega (arith, small.some_size), omega arith),
          IsInside-more a (offset + l.size) memory bs (omega (arith, up.0)) w.blocks,
        );
        disjoint = (
          above-AreApart a (a.arena + offset) l.size bs (omega (arith, up.0)) w.blocks,
          w.disjoint,
        );
      }

  -- Without room alloc returns null.
  pub alloc_helper-full :
      (zero : Bool) (s : Sys) → arena_size < offset + l.size → alloc_helper a l zero s ≡ ok (a, 0) s
  unfolding alloc_helper
  alloc_helper-full zero s full =
      let p = power_small k small.power in
      let up = round_bounds k (page_small k small.power) a.idx in
      rw
        (
          small.align,
          le→ltb 4096 (2 ^ k) p,
          lt→leb 4096 l.size small.size,
          align_up-power k (page_small k small.power) a.idx s (omega (arith, w.top, p)),
          lt→ltb (offset + l.size) (2 ^ 64) (omega (arith, w.top, up.1, p, small.size)),
          lt→ltb arena_size (offset + l.size) full,
        )
        refl

  -- Nothing is left and nothing changes, or a new aligned block, cleared if this is asked for.
  abbrev pub Gives : Bool → InternalAllocator × ℕ → Type 0
  Gives zero out =
      ((out ≡ (a, 0)) × (arena_size < offset + l.size))
      ⊎ ((out.1 % l.align ≡ 0)
          × IsArena out.0 (block out.1 l.size ∷ bs)
          × (out.0 ≡ record a { idx = out.0.idx; memory = out.0.memory })
          × ((p : ℕ)
              → out.0.memory p
                ≡ (if zero && leb out.1 p && ltb p (out.1 + l.size) then 0 else a.memory p)))

  -- Where the blocks in use lie in the arena without overlap, for a size from 1 to 4095 and an
  -- alignment that is a power of two up to 4096: alloc_helper returns without a call of libc. Either
  -- it returns null, nothing has changed, and the size does not fit behind the next aligned offset.
  -- Or it returns an aligned block in the arena apart from all blocks in use; its bytes are 0 if
  -- this was asked for, and no other byte, nor any byte if not, has changed.
  pub alloc_helper-Gives :
      (zero : Bool) (s : Sys) → Ends (λ out s'. (s' ≡ s) × Gives zero out) (alloc_helper a l zero s)
  unfolding alloc_helper
  alloc_helper-Gives zero s =
      let p = power_small k small.power in
      let up = round_bounds k (page_small k small.power) a.idx in
      let room : a.idx + 2 ^ k ≤ 2 ^ 64 = omega (arith, w.top, p) in
      let there : add64 a.arena offset ≡ a.arena + offset =
        omega (arith, w.bound, w.top, up.1, p) in
      rw
        (
          small.align,
          le→ltb 4096 (2 ^ k) p,
          lt→leb 4096 l.size small.size,
          align_up-power k (page_small k small.power) a.idx s room,
          lt→ltb (offset + l.size) (2 ^ 64) (omega (arith, w.top, up.1, p, small.size)),
        )
        (elim (dec_lt arena_size (offset + l.size)) [
          | yes full ↦ rw (lt→ltb arena_size (offset + l.size) full) (ends (refl, inl (refl, full)))
          | no fits ↦
              let fit : offset + l.size ≤ arena_size = omega arith in
              let block_aligned =
                offset_aligned k a.arena offset small.power w.aligned
                  (round-mod k (page_small k small.power) a.idx) in
              rw
                (
                  le→ltb arena_size (offset + l.size) fit,
                  align_up-power k (page_small k small.power) a.idx s room,
                  there,
                )
                (elim (Bool-cases zero) [
                  | inl clear ↦
                      rw
                        (
                          clear,
                          ne→== (a.arena + offset) 0 (omega (arith, w.base)),
                          ne→== (a.arena + offset) map_failed
                              (omega (arith, w.bound, small.some_size)),
                        )
                        (ends (refl, inr (block_aligned, pushed _ fit, refl, λ q. refl)))
                  | inr keep ↦
                      rw keep
                        (ends (refl, inr (block_aligned, pushed a.memory fit, refl, λ q. refl)))
                ])
        ])

-- The blocks apart from the last one lie below its start.
pub below_top :
    (a : InternalAllocator) (p n : ℕ)
    → p + n ≡ a.arena + a.idx
    → IsInside a (block p n)
    → (bs : List Range) → All (IsInside a) bs
    → All (AreApart (block p n)) bs
    → All (IsInside (record a { idx = a.idx - n })) bs
below_top a p n last here [] h k = tt
below_top a p n last here (b ∷ bs) h (inl e, k) = absurd (omega (arith, h.0, here))
below_top a p n last here (b ∷ bs) h (inr e, k) =
    ((h.0.0, h.0.1, omega (arith, here)), below_top a p n last here bs h.1 k)

-- Where the blocks in use lie in the arena without overlap, dealloc of one of them below the
-- threshold returns, changes nothing but `idx`, and the other blocks lie in the arena without
-- overlap; the arena is free from the block's start on if the block was the last one, and from
-- `idx` on, as before, if not.
pub dealloc-IsArena :
    (a : InternalAllocator) (xs : List Range) (ptr : ℕ) (ys : List Range) (l : Layout) (s : Sys)
    → l.size < mmap_threshold
    → IsArena a (xs ++ block ptr l.size ∷ ys)
    → Ends
        (λ a' s'.
          (s' ≡ s)
          × IsArena a' (xs ++ ys)
          × (a' ≡ record a { idx = a'.idx })
          × (a.arena + a'.idx ≡ (if ptr + l.size == a.arena + a.idx then ptr else a.arena + a.idx)))
        (dealloc a ptr l s)
unfolding dealloc
dealloc-IsArena a xs ptr ys l s small w =
    let b = block ptr l.size in
    let (here, others) = All-without (IsInside a) xs b ys w.blocks in
    let (clear, disjoint) = AllApart-append xs b ys w.disjoint in
    let end : add64 ptr l.size ≡ ptr + l.size = omega (arith, here, w.bound, w.top) in
    let top : add64 a.arena a.idx ≡ a.arena + a.idx = omega (arith, w.bound, w.top) in
    rw (lt→leb 4096 l.size small, end, top)
      (elim (ℕ_discrete (ptr + l.size) (a.arena + a.idx)) [
        | yes last ↦
            let down : sub64 a.idx l.size ≡ a.idx - l.size = omega (arith, here, w.top) in
            rw (eq→== (ptr + l.size) (a.arena + a.idx) last, down)
              (ends (
                refl,
                record {
                  aligned = w.aligned;
                  base = w.base;
                  bound = w.bound;
                  top = omega (arith, w.top);
                  blocks = below_top a ptr l.size last here (xs ++ ys) others clear;
                  disjoint = disjoint;
                },
                refl,
                omega (arith, here),
              ))
        | no other ↦ rw (ne→== (ptr + l.size) (a.arena + a.idx) other) (
            ends (
              refl,
              record {
                aligned = w.aligned;
                base = w.base;
                bound = w.bound;
                top = w.top;
                blocks = others;
                disjoint = disjoint;
              },
              refl,
              refl,
            ))
      ])
