-- ===== src/Dlmalloc/Sizes.antt =====
-- Chunk sizes and alignments (dlmalloc/dlmalloc.c, "size_t and alignment properties" and "Chunks
-- sizes and alignments"), with size_t and pointers of 8 bytes: MALLOC_ALIGNMENT is 16,
-- CHUNK_OVERHEAD 8, sizeof(struct malloc_chunk) 32, sizeof(struct malloc_segment) 32.
pub mod Bounds
use mosalloc_rs.Base.{
  ℕ, ◌+◌, ◌-◌, ◌*◌, ◌%◌, ◌^◌, Bool, true, false, if◌then◌else◌, ◌==◌, ltb, add64, sub64,
}

abbrev pub size_t_size : ℕ
size_t_size = 8

abbrev pub malloc_alignment : ℕ
malloc_alignment = 16

-- CHUNK_ALIGN_MASK is 15: `x & CHUNK_ALIGN_MASK` is `x % 16`.
abbrev pub chunk_overhead : ℕ
chunk_overhead = 8

abbrev pub mmap_chunk_overhead : ℕ
mmap_chunk_overhead = 16

abbrev pub mmap_foot_pad : ℕ
mmap_foot_pad = 32

abbrev pub min_chunk_size : ℕ
min_chunk_size = 32

-- (-MIN_CHUNK_SIZE) << 2
abbrev pub max_request : ℕ
max_request = (2 ^ 64 - min_chunk_size) * 4 % 2 ^ 64

abbrev pub min_request : ℕ
min_request = min_chunk_size - chunk_overhead - 1

abbrev pub max_small_request : ℕ
max_small_request = 255 - 15 - chunk_overhead

abbrev pub half_max_size_t : ℕ
half_max_size_t = 2 ^ 63 - 1

abbrev pub is_aligned : ℕ → Bool
is_aligned a = a % 16 == 0

unfoldable pub align_offset : ℕ → ℕ
align_offset a = if a % 16 == 0 then 0 else (16 - a % 16) % 16

unfoldable pub chunk2mem : ℕ → ℕ
chunk2mem p = add64 p 16

unfoldable pub mem2chunk : ℕ → ℕ
mem2chunk mem = sub64 mem 16

unfoldable pub align_as_chunk : ℕ → ℕ
unfolding align_offset chunk2mem
align_as_chunk a = add64 a (align_offset (chunk2mem a))

-- `(req + CHUNK_OVERHEAD + CHUNK_ALIGN_MASK) & ~CHUNK_ALIGN_MASK`, in `size_t`.
unfoldable pub pad_request : ℕ → ℕ
pad_request req = let n = add64 req (chunk_overhead + 15) in n - n % 16

unfoldable pub request2size : ℕ → ℕ
unfolding pad_request
request2size req = if ltb req min_request then min_chunk_size else pad_request req

-- align_offset(chunk2mem(0)) + pad_request(sizeof(struct malloc_segment)) + MIN_CHUNK_SIZE
abbrev pub top_foot_size : ℕ
top_foot_size = 80

abbrev pub sys_alloc_padding : ℕ
sys_alloc_padding = top_foot_size + malloc_alignment
