-- ===== src/Dlmalloc/Realloc/Cleared.antt =====
-- The memory that calloc returns.
use mosalloc_rs.Base.{
  ℕ, ◌+◌, ◌-◌, ◌/◌, ◌%◌, ap, ◌∙◌, ◌*◌, ◌^◌, ◌≤◌, ◌<◌, ◌≡◌, ◌≢◌, refl, ◌⊎◌, arith, ne→==,
}
use mosalloc_rs.Dlmalloc.State.{State, head_of}
use mosalloc_rs.Dlmalloc.State.Returns.{Returns, returns, bind}
use mosalloc_rs.Dlmalloc.Sizes.{request2size, max_request}
use mosalloc_rs.Dlmalloc.Sizes.Bounds.{request2size-IsLeast}
use mosalloc_rs.Dlmalloc.Malloc.Top.{IsTop, OnlyTop, IsReady, dlmalloc-CutsTop}
use mosalloc_rs.Dlmalloc.Realloc.{dlcalloc, calloc_request, zeroed}
use mosalloc_rs.Dlmalloc.Realloc.Bytes.{byte_of, byte_at, zeroed-byte, zeroed-byte_behind}
use mosalloc_rs.Dlmalloc.Realloc.Request.{calloc_request-exact}

calloc_request-product :
    (n e : ℕ) → n < 2 ^ 64 → e < 2 ^ 64 → n * e < max_request → calloc_request n e ≡ n * e
calloc_request-product n e hn he h = rw (calloc_request-exact n e hn he) (ground arith)

-- In an initialised state whose lock is free, where nothing but a well-formed top is free: calloc
-- of `n` elements of `e` bytes, whose product is below MAX_REQUEST and padded is smaller than top,
-- returns the memory at the old top. Each of the n * e bytes, those of a last partial word
-- included, is 0. Top has moved behind the chunk and is smaller by its size, and no other field
-- but the memory has changed; the heads of the chunk and of the new top hold their sizes and
-- marks. The bytes behind the n * e ones up to the head of the new top, and every word outside of
-- the n * e bytes but these two heads, are unchanged.
pub dlcalloc-zero :
    (s : State) (n e : ℕ)
    → IsReady s
    → OnlyTop s
    → IsTop s
    → n < 2 ^ 64
    → e < 2 ^ 64
    → n * e < max_request
    → request2size (n * e) < s.topsize
    → Returns
        (λ mem s'.
          (mem ≡ s.top + 16)
          × (s' ≡ record s {
            top = s.top + request2size (n * e);
            topsize = s.topsize - request2size (n * e);
            mem = s'.mem;
          })
          × (s'.mem (head_of s.top) ≡ request2size (n * e) + 3)
          × (s'.mem (head_of (s.top + request2size (n * e))) ≡ s.topsize - request2size (n * e) + 1)
          × ((i : ℕ) → 8 * i + 8 ≤ n * e → s'.mem (mem + 8 * i) ≡ 0)
          × ((i : ℕ) → i < n * e → byte_at s'.mem mem i ≡ 0)
          × ((i : ℕ)
              → n * e ≤ i
              → i + 8 < request2size (n * e)
              → byte_at s'.mem mem i ≡ byte_at s.mem mem i)
          × ((a : ℕ)
              → (a < mem) ⊎ (mem + n * e ≤ a)
              → a ≢ head_of s.top
              → a ≢ head_of (s.top + request2size (n * e))
              → s'.mem a ≡ s.mem a))
        (dlcalloc n e s)
unfolding dlcalloc
dlcalloc-zero s n e ready only t hn he h fit =
    let size = request2size-IsLeast (n * e) h in
    rw (calloc_request-product n e hn he h) (
      bind (dlmalloc-CutsTop s (n * e) ready only t h fit) (λ mem s' q.
        rw (q.0, ne→== (s.top + 16) 0 (omega arith))
          (returns (
            refl,
            ap (λ (z : State). record z { mem = zeroed (s.top + 16) (n * e) s'.mem }) q.1.rest,
            ground (arith, q.1.chunk),
            ground (arith, q.1.remainder, size),
            λ i b. ground arith,
            zeroed-byte (s.top + 16) (n * e) s'.mem,
            λ i low high.
                zeroed-byte_behind (s.top + 16) (n * e) s'.mem i low
                ∙ ap (byte_of (i % 8))
                    (q.1.words (s.top + 16 + 8 * (i / 8)) (omega arith) (omega arith)),
            λ a off h1 h2. ground (arith, q.1.words a h1 h2),
          ))))
