-- ===== src/Dlmalloc/SysAlloc/First.antt =====
-- The first allocation from the system.
use mosalloc_rs.Base.{
  ℕ, ◌+◌, ◌-◌, ◌%◌, ◌^◌, ◌≤◌, ◌<◌, ◌≡◌, refl, ap, ◌⊎◌, inr, arith, if◌then◌else◌, ◌==◌, ltb, ◌||◌,
  add64, sub64,
}
use mosalloc_rs.Dlmalloc.State.{
  State, write, head_of, fd_of, bk_of, seg_size_of, seg_at, smallbin_at,
}
use mosalloc_rs.Dlmalloc.State.Returns.{Returns, returns, bind}
use mosalloc_rs.Dlmalloc.Sizes.{top_foot_size}
use mosalloc_rs.Dlmalloc.Sizes.Bounds.{align_offset-chunk2mem}
use mosalloc_rs.Dlmalloc.Params.{max_release_check_rate}
use mosalloc_rs.Dlmalloc.Chunk.{with_pinuse}
use mosalloc_rs.Dlmalloc.Index.{nsmallbins}
use mosalloc_rs.Dlmalloc.Segment.{init_top}
use mosalloc_rs.Dlmalloc.Segment.Rings.{init_bins-IsRings}
use mosalloc_rs.Dlmalloc.Malloc.Top.{IsTop}
use mosalloc_rs.Dlmalloc.SysAlloc.{first_segment}

-- `s'` has one segment, of `size` bytes at `base`, which is all top but for its foot, and empty
-- smallbins.
pub record IsFirst (s : State) (base size : ℕ) (s' : State) : Type 0 where
  pub top : s'.top ≡ base
  pub topsize : s'.topsize ≡ size - 80
  pub head : s'.mem (head_of base) ≡ size - 80 + 1
  pub foot : s'.mem (head_of (base + (size - 80))) ≡ 80
  pub segment : (s'.mem (seg_at s') ≡ base) × (s'.mem (seg_size_of (seg_at s')) ≡ size)
  pub rings :
      (j : ℕ)
      → j < nsmallbins
      → (s'.mem (fd_of (smallbin_at s' j)) ≡ smallbin_at s' j)
        × (s'.mem (bk_of (smallbin_at s' j)) ≡ smallbin_at s' j)
  pub rest : s' ≡ record s {
    top = s'.top;
    topsize = s'.topsize;
    least_addr = if s.least_addr == 0 || ltb base s.least_addr then base else s.least_addr;
    magic = s.mparams.magic;
    release_checks = max_release_check_rate;
    trim_check = s.mparams.trim_threshold;
    mem = s'.mem;
  }

-- The state record and the memory of the segment do not overlap.
abbrev pub OffState : State → ℕ → ℕ → Type 0
OffState s base size = (s.self + 960 ≤ base) ⊎ (base + size ≤ s.self)

pub first_segment-IsFirst :
    (s : State) (base size : ℕ)
    → base % 16 ≡ 0
    → size % 16 ≡ 0
    → 80 < size
    → base + size + 16 < 2 ^ 64
    → OffState s base size
    → Returns (λ _ s'. IsFirst s base size s') (first_segment base size 0 s)
unfolding first_segment init_top
first_segment-IsFirst s base size al sal big room off =
    let n : sub64 size top_foot_size ≡ size - 80 = omega arith in
    let whole : sub64 (size - 80) 0 ≡ size - 80 = omega arith in
    let place : add64 base 0 ≡ base = omega arith in
    let end : add64 base (size - 80) ≡ base + (size - 80) = omega arith in
    bind (init_bins-IsRings _) (λ _ s2 q.
      rw (n, align_offset-chunk2mem base al (omega arith), place, whole, end)
        (let here = ap {A = State} (λ r. r.self) q.rest in
          let at = q.words (seg_at s) (inr (omega arith)) in
          let length = q.words (seg_size_of (seg_at s)) (inr (omega arith)) in
          returns (record {
            top = refl;
            topsize = refl;
            head = ground arith;
            foot = ground arith;
            segment = (ground arith, ground arith);
            rings = λ j h. let link = q.rings j (omega arith) h in (ground arith, ground arith);
            rest =
                ap {A = State}
                  (λ r. record r {
                    topsize = size - 80;
                    top = base;
                    trim_check = r.mparams.trim_threshold;
                    mem =
                        write (write s2.mem (base + 8) (with_pinuse (size - 80)))
                          (base + (size - 80) + 8) top_foot_size;
                  })
                  q.rest;
          })))

-- The new top is a top chunk.
pub IsFirst-IsTop :
    (s : State) (base size : ℕ) (t : State)
    → base % 16 ≡ 0
    → size % 16 ≡ 0
    → 80 < size
    → base + size + 16 < 2 ^ 64
    → IsFirst s base size t
    → IsTop t
IsFirst-IsTop s base size t al sal big room f = record {
  aligned = omega (arith, f.top);
  size_aligned = omega (arith, f.topsize);
  room = omega (arith, f.top, f.topsize);
  head = rw (f.top, f.topsize) f.head;
}
