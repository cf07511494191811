-- ===== src/Dlmalloc/Free/Binned.antt =====
-- Freeing a small chunk between chunks in use, and taking it again.
use mosalloc_rs.Base.{
  ℕ, ◌+◌, ◌*◌, ◌%◌, ◌^◌, ◌≤◌, ◌<◌, ◌≡◌, ◌≢◌, sym, ap, ◌∙◌, ◌⊎◌, arith, true, List, ◌∷◌, All, add64,
  lt→ltb, le→leb, inl, inr,
}
use mosalloc_rs.Dlmalloc.State.{State, Mem, write, ◌>>◌, head_of, fd_of, bk_of, smallbin_at}
use mosalloc_rs.Dlmalloc.State.Returns.{Returns, bind, mono}
use mosalloc_rs.Dlmalloc.Sizes.{request2size, max_small_request, min_chunk_size}
use mosalloc_rs.Dlmalloc.Chunk.{
  ok_address, head_size, head_is_inuse, head_pinuse, head_cinuse, with_pinuse, without_pinuse,
}
use mosalloc_rs.Dlmalloc.Index.{small_index, is_small}
use mosalloc_rs.Dlmalloc.Smallbin.Chain.{Apart, All-imp}
use mosalloc_rs.Dlmalloc.Smallbin.Bin.{IsBin, EditsBin, Checked, insert_small_chunk-cons}
use mosalloc_rs.Dlmalloc.Malloc.{malloc_locked}
use mosalloc_rs.Dlmalloc.Malloc.Exact.{Clear, Linked-write, Holds, malloc_locked-Pops}
use mosalloc_rs.Dlmalloc.Free.{bin_freed, free_locked}

-- A small chunk of `n` bytes at `p`, in use like the chunks around it, whose bin holds `xs`.
pub record Between (s : State) (p n : ℕ) (xs : List ℕ) : Type 0 where
  pub aligned : n % 16 ≡ 0
  pub minimal : min_chunk_size ≤ n
  pub small : n < 256
  pub room : p + n + 16 < 2 ^ 64
  pub address : s.least_addr ≤ p
  pub head : s.mem (head_of p) ≡ n + 3
  pub next : s.mem (head_of (p + n)) % 4 ≡ 3
  pub bin : IsBin s (small_index n) xs
  pub checked : Checked s xs
  pub clear : All (Clear p n) (smallbin_at s (small_index n) ∷ xs)

-- Memory after set_free_with_pinuse of the chunk.
abbrev freed_words : Mem → ℕ → ℕ → Mem
freed_words m p n =
    write
      (write (write m (head_of (p + n)) (without_pinuse (m (head_of (p + n))))) (head_of p)
        (with_pinuse n))
      (p + n) n

-- An address in the chunk or at the head behind it is no link of a chunk that is clear of it.
off_links :
    (p n a : ℕ) (ys : List ℕ)
    → (p ≤ a)
    → (a < p + 16) ⊎ (p + n ≤ a)
    → a < p + n + 16
    → All (Clear p n) ys
    → All (λ y. (a ≢ fd_of y) × (a ≢ bk_of y)) ys
off_links p n a ys lo mid hi clear =
    All-imp (Clear p n) (λ y. (a ≢ fd_of y) × (a ≢ bk_of y)) (λ y k. ground arith) ys clear

on_links :
    (p n a : ℕ) (ys : List ℕ)
    → (p ≤ a)
    → (a < p + 16) ⊎ (p + n ≤ a)
    → a < p + n + 16
    → All (Clear p n) ys
    → All (λ y. (fd_of y ≢ a) × (bk_of y ≢ a)) ys
on_links p n a ys lo mid hi clear =
    All-imp (Clear p n) (λ y. (fd_of y ≢ a) × (bk_of y ≢ a)) (λ y k. ground arith) ys clear

Between-IsBin :
    (s : State) (p n : ℕ) (xs : List ℕ)
    → Between s p n xs
    → IsBin (record s { mem = freed_words s.mem p n }) (small_index n) xs
Between-IsBin s p n xs b =
    let ys = smallbin_at s (small_index n) ∷ xs in
    let m1 = write s.mem (head_of (p + n)) (without_pinuse (s.mem (head_of (p + n)))) in
    let m2 = write m1 (head_of p) (with_pinuse n) in
    let bin = smallbin_at s (small_index n) in
    record {
      marked = b.bin.marked;
      chain =
          Linked-write m2 (p + n) n bin xs
            (Linked-write m1 (head_of p) (with_pinuse n) bin xs
              (Linked-write s.mem (head_of (p + n)) (without_pinuse (s.mem (head_of (p + n)))) bin
                xs b.bin.chain
                (on_links p n (head_of (p + n)) ys (omega arith) (inr (omega arith)) (omega arith)
                  b.clear))
              (on_links p n (head_of p) ys (omega arith) (inl (omega arith)) (omega arith) b.clear))
            (on_links p n (p + n) ys (omega arith) (inr (omega arith)) (omega arith) b.clear);
      apart = b.bin.apart;
    }

-- The chunk is in front of its bin, free between chunks in use: its size is in its head and foot,
-- and the chunk behind it knows that it is free.
pub record Freed (s : State) (p n : ℕ) (xs : List ℕ) (s' : State) : Type 0 where
  pub rest : s' ≡ record s { smallmap = s'.smallmap; mem = s'.mem }
  pub bin : IsBin s' (small_index n) (p ∷ xs)
  pub head : s'.mem (head_of p) ≡ n + 1
  pub foot : s'.mem (p + n) ≡ n
  pub next : s'.mem (head_of (p + n)) % 2 ≡ 0

EditsBin-Freed :
    (s : State) (p n : ℕ) (xs : List ℕ)
    → Between s p n xs
    → (s' : State) → IsBin s' (small_index n) (p ∷ xs)
    → EditsBin
        (record s { mem = freed_words s.mem p n })
        (small_index n)
        (smallbin_at s (small_index n) ∷ p ∷ xs)
        s'
    → Freed s p n xs s'
EditsBin-Freed s p n xs b s' bin edits =
    let kept = λ (a : ℕ) (lo : p ≤ a) (mid : (a < p + 16) ⊎ (p + n ≤ a)) (hi : a < p + n + 16).
      let off = off_links p n a (smallbin_at s (small_index n) ∷ xs) lo mid hi b.clear in
      edits.words a (off.0, ((ground (arith, b.minimal), ground (arith, b.minimal)), off.1)) in
    let h = kept (head_of p) (omega arith) (inl (omega arith)) (omega arith) in
    let f = kept (p + n) (omega arith) (inr (omega arith)) (omega arith) in
    let k = kept (head_of (p + n)) (omega arith) (inr (omega arith)) (omega arith) in
    record {
      rest = edits.rest;
      bin = bin;
      head = h ∙ ground (arith, b.minimal, b.aligned);
      foot = f ∙ ground (arith, b.minimal, b.aligned);
      next = rw k (ground (arith, b.minimal, b.aligned));
    }

-- Freeing a small chunk whose neighbours are in use puts it in front of its bin.
pub free_locked-Freed :
    (s : State) (p n : ℕ) (xs : List ℕ)
    → Between s p n xs
    → Returns (λ _ s'. Freed s p n xs s') (free_locked p s)
unfolding free_locked bin_freed
free_locked-Freed s p n xs b =
    let size : head_size (n + 3) ≡ n = omega (arith, b.aligned) in
    let used : head_is_inuse (n + 3) ≡ true = ground (arith, b.aligned) in
    let before : head_pinuse (n + 3) ≡ true = ground (arith, b.aligned) in
    let place : add64 p n ≡ p + n = omega (arith, b.room) in
    let odd : head_pinuse (s.mem (head_of (p + n))) ≡ true = ground (arith, b.next) in
    let taken : head_cinuse (s.mem (head_of (p + n))) ≡ true = ground (arith, b.next) in
    let small : is_small n ≡ true = ground (arith, b.small) in
    rw
      (
        b.head,
        size,
        place,
        le→leb s.least_addr p b.address,
        used,
        before,
        lt→ltb p (p + n) (omega (arith, b.minimal)),
        odd,
        taken,
        small,
      )
      (mono
        (insert_small_chunk-cons (record s { mem = freed_words s.mem p n }) p n xs
          (Between-IsBin s p n xs b) b.checked
          (All-imp (Clear p n) (Apart p) (λ y k. ground (arith, b.minimal))
            (smallbin_at s (small_index n) ∷ xs) b.clear))
        (λ _ s' q. EditsBin-Freed s p n xs b s' q.0 q.1))

Freed-Holds :
    (s : State) (p n : ℕ) (xs : List ℕ)
    → Between s p n xs
    → (s' : State) → Freed s p n xs s'
    → Holds s' (small_index n) p xs
Freed-Holds s p n xs b s' f =
    let size : small_index n * 8 ≡ n = omega (arith, b.small, b.aligned) in
    let least : s'.least_addr ≡ s.least_addr = ap (λ (r : State). r.least_addr) f.rest in
    let self : s'.self ≡ s.self = ap (λ (r : State). r.self) f.rest in
    record {
      positive = omega (arith, b.minimal, b.small);
      room = omega (arith, b.room);
      bin = f.bin;
      checked =
          All-imp (λ y. ok_address s y ≡ true) (λ y. ok_address s' y ≡ true) (λ y k. rw least k) xs
            b.checked;
      clear = (
        rw (size, self) b.clear.0,
        All-imp (Clear p n) (Clear p (small_index n * 8)) (λ y k. rw size k) xs b.clear.1,
      );
    }

-- For a small chunk in use between chunks in use, at or above the least address and clear of its
-- bin, whose chunks pass the address check: free followed by a request whose padded size is that
-- of the chunk returns its memory; it is in use again, its bin holds what it held before, and only
-- the smallmap and memory have changed.
pub malloc_locked-free_locked :
    (s : State) (p n bytes : ℕ) (xs : List ℕ)
    → Between s p n xs
    → bytes ≤ max_small_request
    → request2size bytes ≡ n
    → Returns
        (λ mem s'.
          (mem ≡ p + 16)
          × (s'.mem (head_of p) ≡ n + 3)
          × IsBin s' (small_index n) xs
          × (s' ≡ record s { smallmap = s'.smallmap; mem = s'.mem }))
        ((free_locked p >> malloc_locked bytes) s)
malloc_locked-free_locked s p n bytes xs b small size =
    let whole : small_index n * 8 ≡ n = omega (arith, b.small, b.aligned) in
    bind (free_locked-Freed s p n xs b) (λ _ s' f.
      mono
        (malloc_locked-Pops s' bytes (small_index n) p xs small (inl (ap small_index (sym size)))
          (Freed-Holds s p n xs b s' f))
        (λ mem s2 q. (
          q.0,
          q.1.head ∙ ap (λ k. k + 3) whole,
          q.1.left,
          q.1.rest ∙ ap {A = State} (λ r. record r { smallmap = s2.smallmap; mem = s2.mem }) f.rest,
        )))
