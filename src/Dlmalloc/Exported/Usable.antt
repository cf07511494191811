-- ===== src/Dlmalloc/Exported/Usable.antt =====
-- The usable size of what malloc returned.
use mosalloc_rs.Base.{ℕ, ◌+◌, ◌≤◌, ◌<◌, ◌≡◌, arith, true, false, ne→==}
use mosalloc_rs.Dlmalloc.State.{State, ◌>>=◌}
use mosalloc_rs.Dlmalloc.State.Returns.{Returns, returns, bind}
use mosalloc_rs.Dlmalloc.Sizes.{request2size, max_request}
use mosalloc_rs.Dlmalloc.Sizes.Bounds.{request2size-IsLeast, mem2chunk_lem}
use mosalloc_rs.Dlmalloc.Chunk.{head_size, head_is_inuse, head_is_mmapped}
use mosalloc_rs.Dlmalloc.Malloc.{dlmalloc}
use mosalloc_rs.Dlmalloc.Malloc.Top.{IsTop, OnlyTop, IsReady, CutsTop, dlmalloc-CutsTop}
use mosalloc_rs.Dlmalloc.Exported.{dlmalloc_usable_size}

small_waste : (bytes : ℕ) → bytes < max_request → request2size bytes < bytes + 33
unfolding request2size
small_waste bytes h = ground arith

-- In an initialised state whose lock is free, where nothing but a well-formed top is free: for
-- every request below MAX_REQUEST whose padded size is smaller than top, the usable size of what
-- malloc returned is at least the bytes asked for and less than 25 bytes more, and the state is
-- the one that malloc left.
pub dlmalloc_usable_size-dlmalloc :
    (s : State) (bytes : ℕ)
    → IsReady s
    → OnlyTop s
    → IsTop s
    → bytes < max_request
    → request2size bytes < s.topsize
    → Returns
        (λ r s'. (bytes ≤ r) × (r < bytes + 25) × CutsTop s (request2size bytes) s')
        ((dlmalloc bytes >>= dlmalloc_usable_size) s)
unfolding dlmalloc_usable_size
dlmalloc_usable_size-dlmalloc s bytes ready only t h fit =
    let nb = request2size bytes in
    let size = request2size-IsLeast bytes h in
    let waste = small_waste bytes h in
    let whole : head_size (nb + 3) ≡ nb = omega (arith, size.0) in
    let used : head_is_inuse (nb + 3) ≡ true = ground (arith, size.0) in
    let unmapped : head_is_mmapped (nb + 3) ≡ false = ground (arith, size.0) in
    bind (dlmalloc-CutsTop s bytes ready only t h fit) (λ mem s' q.
      rw
        (
          q.0,
          ne→== (s.top + 16) 0 (omega arith),
          mem2chunk_lem s.top (omega (arith, t.room)),
          q.1.chunk,
          used,
          whole,
          unmapped,
        )
        (returns (omega (arith, size.2, t.room), omega (arith, waste, size.2, t.room), q.1)))
