-- ===== src/Dlmalloc/Sizes/Bounds.antt =====
-- Bounds of the padded sizes and alignment of the chunk addresses.
use mosalloc_rs.Base.{ℕ, ◌+◌, ◌%◌, ◌^◌, ◌≤◌, ◌<◌, ◌≡◌, refl, arith}
use mosalloc_rs.Dlmalloc.Sizes.{
  chunk_overhead, min_chunk_size, max_request, top_foot_size, align_offset, chunk2mem, mem2chunk,
  align_as_chunk, pad_request, request2size,
}

-- For every request below MAX_REQUEST the padded size is a multiple of the alignment, is at least
-- a minimal chunk, leaves room for the request and the overhead word, and is the smallest such
-- size.
pub request2size-IsLeast :
    (req : ℕ)
    → req < max_request
    → (request2size req % 16 ≡ 0)
      × (min_chunk_size ≤ request2size req)
      × (req + chunk_overhead ≤ request2size req)
      × ((n : ℕ)
          → n % 16 ≡ 0
          → min_chunk_size ≤ n
          → req + chunk_overhead ≤ n
          → request2size req ≤ n)
unfolding request2size
request2size-IsLeast req h = (ground arith, ground arith, ground arith, λ n a b c. ground arith)

-- For every 64-bit chunk address, mem2chunk of chunk2mem of it is the address again.
pub mem2chunk-chunk2mem : (p : ℕ) → p < 2 ^ 64 → mem2chunk (chunk2mem p) ≡ p
unfolding chunk2mem mem2chunk
mem2chunk-chunk2mem p h = omega arith

-- `align_as_chunk` moves an address, 32 bytes or more below the end of the address space, up by
-- less than 16 to one whose chunk has an aligned payload.
pub align_as_chunk-IsLeast :
    (a : ℕ)
    → a + 32 < 2 ^ 64
    → (chunk2mem (align_as_chunk a) % 16 ≡ 0) × (a ≤ align_as_chunk a) × (align_as_chunk a < a + 16)
unfolding align_as_chunk
align_as_chunk-IsLeast a h = (ground arith, ground arith, ground arith)

top_foot_size_lem : top_foot_size ≡ align_offset (chunk2mem 0) + pad_request 32 + min_chunk_size
unfolding align_offset chunk2mem pad_request
top_foot_size_lem = refl

-- At an aligned address no offset is needed, and where nothing wraps the conversions are sums.
pub align_offset-chunk2mem : (p : ℕ) → p % 16 ≡ 0 → p + 16 < 2 ^ 64 → align_offset (chunk2mem p) ≡ 0
unfolding align_offset chunk2mem
align_offset-chunk2mem p al h = ground arith

pub chunk2mem_lem : (p : ℕ) → p + 16 < 2 ^ 64 → chunk2mem p ≡ p + 16
unfolding chunk2mem
chunk2mem_lem p h = omega arith

pub mem2chunk_lem : (p : ℕ) → p + 16 < 2 ^ 64 → mem2chunk (p + 16) ≡ p
unfolding mem2chunk
mem2chunk_lem p h = omega arith
