-- ===== src/Dlmalloc/Free/Mapped.antt =====
-- A directly mapped chunk goes back to the system.
use native.Mathlib.Nat.{pow-suc, div-add-mod'}
use mosalloc_rs.Base.{
  ℕ, suc, ◌+◌, ◌-◌, ◌*◌, ◌/◌, ◌%◌, ◌^◌, ◌≤◌, ◌<◌, ◌≡◌, refl, arith, ◌==◌, true, false, add64, sub64,
  ne→==, eq→==, lt→ltb, le→leb,
}
use mosalloc_rs.Dlmalloc.State.{State, Mem, head_of, ◌>>=◌}
use mosalloc_rs.Dlmalloc.State.Returns.{Returns, returns, bind, mono}
use mosalloc_rs.Dlmalloc.Sizes.{mem2chunk, mmap_foot_pad}
use mosalloc_rs.Dlmalloc.Sizes.Bounds.{align_offset-chunk2mem, chunk2mem_lem, mem2chunk_lem}
use mosalloc_rs.Dlmalloc.Chunk.{head_size, head_is_inuse, head_pinuse, head_is_mmapped}
use mosalloc_rs.Dlmalloc.Params.{align_to}
use mosalloc_rs.Dlmalloc.Params.Align.{align_to-IsLeast}
use mosalloc_rs.Dlmalloc.Mmap.{mmap_alloc, mmap_size, mfail}
use mosalloc_rs.Dlmalloc.Free.{free_locked}

-- After mmap_alloc: a chunk in the mapping of `size` bytes at `mm`.
pub record Maps (s : State) (mm size : ℕ) (s' : State) : Type 0 where
  pub offset : s'.mem mm ≡ 0
  pub head : s'.mem (head_of mm) ≡ size - 32
  pub footprint : s'.footprint ≡ s.footprint + size
  pub least : s'.least_addr ≤ mm
  pub system : s'.os ≡ s.os
  pub calls : s'.calls ≡ s.calls + 1

mmap_alloc-Maps :
    (s : State) (nb mm : ℕ)
    → s.footprint_limit ≡ 0
    → nb + 64 ≤ mmap_size s nb
    → mmap_size s nb % 16 ≡ 0
    → (s.os.mmap s.calls (mmap_size s nb) s.mem).0 ≡ mm
    → 0 < mm
    → mm % 16 ≡ 0
    → mm + mmap_size s nb + 64 < 2 ^ 64
    → s.footprint + mmap_size s nb < 2 ^ 64
    → Returns (λ mem s'. (mem ≡ mm + 16) × Maps s mm (mmap_size s nb) s') (mmap_alloc nb s)
unfolding mmap_alloc
mmap_alloc-Maps s nb mm nolimit big al16 answer pos al room fp =
    let size = mmap_size s nb in
    let ok : (mm == mfail) ≡ false = ne→== mm mfail (omega arith) in
    let psize : sub64 (sub64 size 0) mmap_foot_pad ≡ size - 32 = omega arith in
    let behind : add64 mm (size - 32) ≡ mm + (size - 32) = omega arith in
    let step : add64 (size - 32) 8 ≡ size - 24 = omega arith in
    let behind2 : add64 mm (size - 24) ≡ mm + (size - 24) = omega arith in
    let place : add64 mm 0 ≡ mm = omega arith in
    let more : add64 s.footprint size ≡ s.footprint + size = omega arith in
    rw
      (
        eq→== s.footprint_limit 0 nolimit,
        lt→ltb nb size (omega arith),
        answer,
        ok,
        align_offset-chunk2mem mm al (omega arith),
        place,
        psize,
        behind,
        step,
        behind2,
        chunk2mem_lem mm (omega arith),
        more,
      )
      (returns (
        refl,
        record {
          offset = ground arith;
          head = ground arith;
          footprint = refl;
          least = ground arith;
          system = refl;
          calls = refl;
        },
      ))

-- The part of free between the locks, on the chunk of a mapping: the mapping is unmapped as it was
-- made, and the footprint is what it was.
unmaps :
    (s s' : State) (mm size : ℕ)
    → Maps s mm size s'
    → size % 16 ≡ 0
    → 64 ≤ size
    → mm + size + 64 < 2 ^ 64
    → s.footprint + size < 2 ^ 64
    → ((m : Mem) → (s.os.munmap (s.calls + 1) mm size m).0 ≡ 0)
    → Returns
        (λ _ r.
          (r.footprint ≡ s.footprint) × (r.mem ≡ (s.os.munmap (s.calls + 1) mm size s'.mem).1))
        (free_locked mm s')
unfolding free_locked
unmaps s s' mm size maps al16 big room fp granted =
    let psize : head_size (size - 32) ≡ size - 32 = omega arith in
    let used : head_is_inuse (size - 32) ≡ true = ground arith in
    let front : head_pinuse (size - 32) ≡ false = ground arith in
    let mapped : head_is_mmapped (size - 32) ≡ true = ground arith in
    let whole : add64 (size - 32) 32 ≡ size = omega arith in
    let base : sub64 mm 0 ≡ mm = omega arith in
    let less : sub64 (s.footprint + size) size ≡ s.footprint = omega arith in
    let asked : (s'.os.munmap s'.calls mm size s'.mem).0 ≡ 0 =
      rw (maps.system, maps.calls) (granted s'.mem) in
    rw
      (
        maps.head,
        psize,
        le→leb s'.least_addr mm maps.least,
        used,
        front,
        mapped,
        maps.offset,
        base,
        whole,
        asked,
        maps.footprint,
      )
      (returns (less, rw (maps.system, maps.calls) refl))

-- The size that is asked of the system, with pages of 16 * 2^j bytes.
mmap_size-bounds :
    (s : State) (nb j : ℕ)
    → s.mparams.page_size ≡ 2 ^ (4 + j)
    → nb % 16 ≡ 0
    → nb + 64 + 2 ^ (4 + j) < 2 ^ 64
    → (nb + 64 ≤ mmap_size s nb) × (mmap_size s nb % 16 ≡ 0)
mmap_size-bounds s nb j page al room =
    let sum : add64 nb 63 ≡ nb + 63 = omega arith in
    let up = align_to-IsLeast (4 + j) (nb + 63) (omega arith) (omega arith) in
    let unit : 2 ^ (4 + j) ≡ 16 * 2 ^ j =
      let sucs : 4 + j ≡ suc (suc (suc (suc j))) = omega arith in
      rw
        (
          sucs,
          pow-suc 2 (suc (suc (suc j))),
          pow-suc 2 (suc (suc j)),
          pow-suc 2 (suc j),
          pow-suc 2 j,
        )
        (omega arith) in
    let size = align_to (2 ^ (4 + j)) (nb + 63) in
    let parts : size / (16 * 2 ^ j) * (16 * 2 ^ j) + size % (16 * 2 ^ j) ≡ size =
      div-add-mod' size (16 * 2 ^ j) in
    let whole : size % (16 * 2 ^ j) ≡ 0 = rw (← unit) up.0 in
    let al16 : size % 16 ≡ 0 = omega arith in rw (page, sum) (omega (arith, up.1), al16)

-- With pages of 2 ^ (4 + j) bytes and no footprint limit, for an aligned size whose mapping fits
-- the address space and the footprint: if the system maps the bytes that mmap_alloc asks for at an
-- aligned address, and unmaps exactly these, then free of the chunk returns, memory is what the
-- system made of it on a call of munmap with exactly that mapping, and the footprint is what it
-- was before mmap_alloc.
pub free_locked-mmap_alloc :
    (s : State) (nb mm j : ℕ)
    → s.mparams.page_size ≡ 2 ^ (4 + j)
    → s.footprint_limit ≡ 0
    → nb % 16 ≡ 0
    → nb + 64 + 2 ^ (4 + j) < 2 ^ 64
    → (s.os.mmap s.calls (mmap_size s nb) s.mem).0 ≡ mm
    → 0 < mm
    → mm % 16 ≡ 0
    → mm + mmap_size s nb + 64 < 2 ^ 64
    → s.footprint + mmap_size s nb < 2 ^ 64
    → ((m : Mem) → (s.os.munmap (s.calls + 1) mm (mmap_size s nb) m).0 ≡ 0)
    → Returns
        (λ _ r.
          (r.footprint ≡ s.footprint)
          × ((m : Mem) × (r.mem ≡ (s.os.munmap (s.calls + 1) mm (mmap_size s nb) m).1)))
        ((mmap_alloc nb >>= λ mem. free_locked (mem2chunk mem)) s)
free_locked-mmap_alloc s nb mm j page nolimit al16 small answer pos al room fp granted =
    let size = mmap_size-bounds s nb j page al16 small in
    bind (mmap_alloc-Maps s nb mm nolimit size.0 size.1 answer pos al room fp) (λ mem s' q.
      rw (q.0, mem2chunk_lem mm (omega arith))
        (mono (unmaps s s' mm (mmap_size s nb) q.1 size.1 (omega (arith, size.0)) room fp granted)
          (λ _ r k. (k.0, (s'.mem, k.1)))))
