-- ===== src/Dlmalloc/Chunk.antt =====
-- Operations on head and foot fields (dlmalloc/dlmalloc.c, "Operations on head and foot fields"
-- and "Runtime Check Support"). In a head word bit 0 is PINUSE_BIT, bit 1 CINUSE_BIT and bit 2
-- FLAG4_BIT; the size is the rest. A test of a bit is a remainder, and `x | b` for low bits `b`
-- replaces the remainder.
use mosalloc_rs.Base.{ℕ, ◌+◌, ◌-◌, ◌/◌, ◌%◌, Bool, not, if◌then◌else◌, ◌==◌, ltb, leb, add64, sub64}
use mosalloc_rs.Dlmalloc.State.{State, Cmd, ◌>>=◌, ◌>>◌, load, store, head_of}
use mosalloc_rs.Dlmalloc.Sizes.{mmap_chunk_overhead, chunk_overhead}

abbrev pub pinuse_bit : ℕ
pinuse_bit = 1

abbrev pub inuse_bits : ℕ
inuse_bits = 3

-- FENCEPOST_HEAD: INUSE_BITS | SIZE_T_SIZE.
abbrev pub fencepost_head : ℕ
fencepost_head = 11

-- h | PINUSE_BIT, h & ~PINUSE_BIT, h | PINUSE_BIT | CINUSE_BIT.
abbrev pub with_pinuse : ℕ → ℕ
with_pinuse h = h - h % 2 + 1

abbrev pub without_pinuse : ℕ → ℕ
without_pinuse h = h - h % 2

abbrev pub with_inuse : ℕ → ℕ
with_inuse h = h - h % 4 + 3

-- (h & PINUSE_BIT) | s | CINUSE_BIT
abbrev pub keep_pinuse : ℕ → ℕ → ℕ
keep_pinuse h s = s - s % 4 + (if s % 2 == 1 then 1 else h % 2) + 2

abbrev pub head_pinuse : ℕ → Bool
head_pinuse h = h % 2 == 1

abbrev pub head_cinuse : ℕ → Bool
head_cinuse h = h / 2 % 2 == 1

abbrev pub head_is_inuse : ℕ → Bool
head_is_inuse h = not (h % 4 == 1)

abbrev pub head_is_mmapped : ℕ → Bool
head_is_mmapped h = h % 4 == 0

abbrev pub head_size : ℕ → ℕ
head_size h = h - h % 8

-- The macros of the same names, on the chunk at `p`.
abbrev pub cinuse : State → ℕ → Bool
cinuse s p = head_cinuse (s.mem (head_of p))

abbrev pub pinuse : State → ℕ → Bool
pinuse s p = head_pinuse (s.mem (head_of p))

abbrev pub is_inuse : State → ℕ → Bool
is_inuse s p = head_is_inuse (s.mem (head_of p))

abbrev pub is_mmapped : State → ℕ → Bool
is_mmapped s p = head_is_mmapped (s.mem (head_of p))

abbrev pub chunksize : State → ℕ → ℕ
chunksize s p = head_size (s.mem (head_of p))

abbrev pub prev_foot : State → ℕ → ℕ
prev_foot s p = s.mem p

abbrev pub chunk_plus_offset : ℕ → ℕ → ℕ
chunk_plus_offset p n = add64 p n

abbrev pub chunk_minus_offset : ℕ → ℕ → ℕ
chunk_minus_offset p n = sub64 p n

abbrev pub next_chunk : State → ℕ → ℕ
next_chunk s p = chunk_plus_offset p (chunksize s p)

abbrev pub prev_chunk : State → ℕ → ℕ
prev_chunk s p = chunk_minus_offset p (prev_foot s p)

abbrev pub next_pinuse : State → ℕ → Bool
next_pinuse s p = pinuse s (next_chunk s p)

abbrev pub overhead_for : State → ℕ → ℕ
overhead_for s p = if is_mmapped s p then mmap_chunk_overhead else chunk_overhead

abbrev pub set_head : ℕ → ℕ → Cmd (Unit {0})
set_head p h = store (head_of p) h

abbrev pub clear_pinuse : ℕ → Cmd (Unit {0})
clear_pinuse p = do set_head p (without_pinuse (← load (head_of p)))

abbrev pub mark_pinuse : ℕ → Cmd (Unit {0})
mark_pinuse p = do set_head p (with_pinuse (← load (head_of p)))

abbrev pub set_foot : ℕ → ℕ → Cmd (Unit {0})
set_foot p n = store (chunk_plus_offset p n) n

abbrev pub set_size_and_pinuse_of_free_chunk : ℕ → ℕ → Cmd (Unit {0})
set_size_and_pinuse_of_free_chunk p n = do set_head p (with_pinuse n); set_foot p n

abbrev pub set_free_with_pinuse : ℕ → ℕ → ℕ → Cmd (Unit {0})
set_free_with_pinuse p n next = do clear_pinuse next; set_size_and_pinuse_of_free_chunk p n

-- Without FOOTERS no foot is written for a chunk in use.
abbrev pub set_inuse : ℕ → ℕ → Cmd (Unit {0})
set_inuse p n = do
  h ← load (head_of p)
  set_head p (keep_pinuse h n)
  mark_pinuse (chunk_plus_offset p n)

abbrev pub set_inuse_and_pinuse : ℕ → ℕ → Cmd (Unit {0})
set_inuse_and_pinuse p n = do set_head p (with_inuse n); mark_pinuse (chunk_plus_offset p n)

abbrev pub set_size_and_pinuse_of_inuse_chunk : ℕ → ℕ → Cmd (Unit {0})
set_size_and_pinuse_of_inuse_chunk p n = set_head p (with_inuse n)

-- The run-time checks.
abbrev pub ok_address : State → ℕ → Bool
ok_address s a = leb s.least_addr a

abbrev pub ok_next : ℕ → ℕ → Bool
ok_next p n = ltb p n

abbrev pub ok_inuse : State → ℕ → Bool
ok_inuse s p = is_inuse s p

abbrev pub ok_pinuse : State → ℕ → Bool
ok_pinuse s p = pinuse s p
