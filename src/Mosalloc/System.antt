-- ===== src/Mosalloc/System.antt =====
-- What the Rust code asks of libc, and the commands that it is made of.
--
-- The functions that libmosalloc/src/preload_hooks.rs takes by `real!` are not here: the record
-- Libc answers the calls, each answer depending on all calls made before. The trace holds them,
-- the last one first. A `usize` is a natural number below 2 ^ 64, an `i32` or `isize` stands for
-- its bit pattern, and arithmetic wraps, as in the release build of the README.
pub mod Ends
use mosalloc_rs.Base.{ℕ, List, ◌∷◌, Bool, true, false, Option, none, some, max_size_t, get_elem?}

pub data Call : Type 0 where
  mmap : ℕ → ℕ → ℕ → ℕ → ℕ → ℕ → Call
  munmap : ℕ → ℕ → Call
  mprotect : ℕ → ℕ → ℕ → Call
  madvise : ℕ → ℕ → ℕ → Call
  mremap : ℕ → ℕ → ℕ → ℕ → ℕ → Call
  libc_brk : ℕ → Call
  libc_sbrk : ℕ → Call

-- What a call returns, and what errno is after it.
pub record Answer : Type 0 where
  pub value : ℕ
  pub errno : ℕ

abbrev pub Libc : Type 0
Libc = List Call → Call → ℕ → Answer

-- `*libc::__errno_location()`, the calls made so far and the library that answers them.
pub record Sys : Type 0 where
  pub libc : Libc
  pub trace : List Call
  pub errno : ℕ

-- A command ends with a result, panics, waits for a lock that nobody releases, writes where no memory
-- is, or uses up the rounds of a loop.
pub data Run {ℓ} (A : Type ℓ) : Type ℓ where
  ok : A → Sys → Run A
  panic : Run A
  spins : Run A
  segfault : Run A
  out_of_fuel : Run A

abbrev pub Cmd {ℓ} : Type ℓ → Type ℓ
Cmd A = Sys → Run A

abbrev pub pure {ℓ} : {A : Type ℓ} → A → Cmd A
pure a s = ok a s

abbrev pub and_then {ℓ κ} : {A : Type ℓ} {B : Type κ} → Run A → (A → Cmd B) → Run B
and_then (ok a s) k = k a s
and_then panic k = panic
and_then spins k = spins
and_then segfault k = segfault
and_then out_of_fuel k = out_of_fuel

infixl 5 ◌>>=◌ ◌>>◌
abbrev pub ◌>>=◌ {ℓ κ} : {A : Type ℓ} {B : Type κ} → Cmd A → (A → Cmd B) → Cmd B
◌>>=◌ m k s = and_then (m s) k

abbrev pub ◌>>◌ {ℓ} : {B : Type ℓ} → Cmd (Unit {0}) → Cmd B → Cmd B
◌>>◌ m n s = and_then (m s) (λ _. n)

-- assert!
abbrev pub assert : Bool → Cmd (Unit {0})
assert true s = ok tt s
assert false s = panic

-- unwrap(), and the access to a vector, which panics out of bounds.
abbrev pub unwrap {ℓ} : {A : Type ℓ} → Option A → Cmd A
unwrap none s = panic
unwrap (some a) s = ok a s

abbrev pub elem_at {ℓ} : {A : Type ℓ} → List A → ℕ → Cmd A
elem_at xs i = unwrap (get_elem? xs i)

abbrev pub get_errno : Cmd ℕ
get_errno s = ok s.errno s

abbrev pub set_errno : ℕ → Cmd (Unit {0})
set_errno e s = ok tt (record s { errno = e })

-- libc_mmap, libc_munmap, libc_mprotect, libc_madvise and libc_mremap.
abbrev pub called : Sys → Call → Sys
called s c = record s { trace = c ∷ s.trace; errno = (s.libc s.trace c s.errno).errno }

abbrev pub call : Call → Cmd ℕ
call c s = ok (s.libc s.trace c s.errno).value (called s c)

-- libc::MAP_FAILED as usize, which is usize::MAX, and the error numbers used.
abbrev pub map_failed : ℕ
map_failed = max_size_t

abbrev pub enomem : ℕ
enomem = 12

abbrev pub eexist : ℕ
eexist = 17
