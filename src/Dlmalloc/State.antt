-- ===== src/Dlmalloc/State.antt =====
-- The memory, the `malloc_state`, the `malloc_params` and the commands that read and write them
-- (dlmalloc/dlmalloc.c, "Chunk representations", "malloc_state", "Global malloc_state and
-- malloc_params"), and the system calls, which are a parameter of the model.
--
-- Memory is a function from byte addresses to the words stored there. Every access of the code
-- is to a field, so to a word: fields are addressed at the offsets of the 64-bit layout.
pub mod Returns
use mosalloc_rs.Base.{ℕ, ◌+◌, ◌*◌, if◌then◌else◌, ◌==◌}

abbrev pub Mem : Type 0
Mem = ℕ → ℕ

abbrev pub write : Mem → ℕ → ℕ → Mem
write m a v b = if b == a then v else m b

-- What the allocator asks of the operating system. Each answer may depend on the number of calls
-- made before, on the arguments and on the memory, and comes with the memory after the call.
-- `sbrk`, `mmap` and `mremap` return an address, `munmap` an `int`.
pub record Os : Type 0 where
  pub sbrk : ℕ → ℕ → Mem → ℕ × Mem
  pub mmap : ℕ → ℕ → Mem → ℕ × Mem
  pub munmap : ℕ → ℕ → ℕ → Mem → ℕ × Mem
  pub mremap : ℕ → ℕ → ℕ → ℕ → ℕ → Mem → ℕ × Mem
  pub getpagesize : ℕ
  pub time : ℕ → ℕ

-- struct malloc_params
pub record Params : Type 0 where
  pub magic : ℕ
  pub page_size : ℕ
  pub granularity : ℕ
  pub mmap_threshold : ℕ
  pub trim_threshold : ℕ
  pub default_mflags : ℕ

-- struct malloc_state. `smallbins`, `treebins` and the record `seg` are reached through pointers,
-- so they stand in memory, at their offsets from `self`, the address of the state. Around it:
-- `mparams`, `malloc_global_mutex`, `errno`, the system with the count of its calls, and
-- `rounds`, the fuel that each loop over memory is given.
pub record State : Type 0 where
  pub smallmap : ℕ
  pub treemap : ℕ
  pub dvsize : ℕ
  pub topsize : ℕ
  pub least_addr : ℕ
  pub dv : ℕ
  pub top : ℕ
  pub trim_check : ℕ
  pub release_checks : ℕ
  pub magic : ℕ
  pub footprint : ℕ
  pub max_footprint : ℕ
  pub footprint_limit : ℕ
  pub mflags : ℕ
  pub mutex : ℕ
  pub self : ℕ
  pub mem : Mem
  pub mparams : Params
  pub global_mutex : ℕ
  pub errno : ℕ
  pub os : Os
  pub calls : ℕ
  pub rounds : ℕ

-- A command ends with a result, by `abort()`, by waiting for a lock that is not released, or it
-- uses up its rounds.
pub data Run {ℓ} (A : Type ℓ) : Type ℓ where
  ok : A → State → Run A
  abort : Run A
  blocked : Run A
  out_of_fuel : Run A

abbrev pub Cmd {ℓ} : Type ℓ → Type ℓ
Cmd A = State → Run A

abbrev pub pure {ℓ} : {A : Type ℓ} → A → Cmd A
pure a s = ok a s

abbrev pub and_then {ℓ κ} : {A : Type ℓ} {B : Type κ} → Run A → (A → Cmd B) → Run B
and_then (ok a s) k = k a s
and_then abort k = abort
and_then blocked k = blocked
and_then out_of_fuel k = out_of_fuel

infixl 5 ◌>>=◌ ◌>>◌
abbrev pub ◌>>=◌ {ℓ κ} : {A : Type ℓ} {B : Type κ} → Cmd A → (A → Cmd B) → Cmd B
◌>>=◌ m k s = and_then (m s) k

abbrev pub ◌>>◌ {ℓ} : {B : Type ℓ} → Cmd (Unit {0}) → Cmd B → Cmd B
◌>>◌ m n s = and_then (m s) (λ _. n)

abbrev pub get : Cmd State
get s = ok s s

abbrev pub modify : (State → State) → Cmd (Unit {0})
modify f s = ok tt (f s)

-- `pure tt`, for a branch that does nothing.
abbrev pub skip : Cmd (Unit {0})
skip s = ok tt s

abbrev pub load : ℕ → Cmd ℕ
load a s = ok (s.mem a) s

abbrev pub store : ℕ → ℕ → Cmd (Unit {0})
store a v s = ok tt (record s { mem = write s.mem a v })

-- CORRUPTION_ERROR_ACTION and USAGE_ERROR_ACTION: both are ABORT.
abbrev pub error_action {ℓ} : {A : Type ℓ} → Cmd A
error_action s = abort

-- MALLOC_FAILURE_ACTION: errno = ENOMEM.
abbrev pub enomem : ℕ
enomem = 12

abbrev pub failure_action : Cmd (Unit {0})
failure_action s = ok tt (record s { errno = enomem })

abbrev pub called : State → Mem → State
called s m = record s { mem = m; calls = s.calls + 1 }

-- CALL_MORECORE, CALL_MMAP and CALL_DIRECT_MMAP, CALL_MUNMAP, CALL_MREMAP.
abbrev pub call_morecore : ℕ → Cmd ℕ
call_morecore n s = let r = s.os.sbrk s.calls n s.mem in ok r.0 (called s r.1)

abbrev pub call_mmap : ℕ → Cmd ℕ
call_mmap n s = let r = s.os.mmap s.calls n s.mem in ok r.0 (called s r.1)

abbrev pub call_munmap : ℕ → ℕ → Cmd ℕ
call_munmap a n s = let r = s.os.munmap s.calls a n s.mem in ok r.0 (called s r.1)

abbrev pub call_mremap : ℕ → ℕ → ℕ → ℕ → Cmd ℕ
call_mremap a o n mv s = let r = s.os.mremap s.calls a o n mv s.mem in ok r.0 (called s r.1)

-- struct malloc_chunk and struct malloc_tree_chunk: where the fields of the chunk at `p` stand.
-- `prev_foot` stands at `p` itself.
abbrev pub head_of : ℕ → ℕ
head_of p = p + 8

abbrev pub fd_of : ℕ → ℕ
fd_of p = p + 16

abbrev pub bk_of : ℕ → ℕ
bk_of p = p + 24

abbrev pub child_of : ℕ → ℕ → ℕ
child_of p i = p + 32 + 8 * i

abbrev pub parent_of : ℕ → ℕ
parent_of p = p + 48

abbrev pub index_of : ℕ → ℕ
index_of p = p + 56

-- struct malloc_segment: `base` at the address itself, then `size`, `next` and `sflags`.
abbrev pub seg_size_of : ℕ → ℕ
seg_size_of sp = sp + 8

abbrev pub seg_next_of : ℕ → ℕ
seg_next_of sp = sp + 16

abbrev pub seg_flags_of : ℕ → ℕ
seg_flags_of sp = sp + 24

-- smallbin_at, treebin_at and &m->seg, at the offsets of the arrays and of `seg` in the struct.
abbrev pub smallbin_at : State → ℕ → ℕ
smallbin_at s i = s.self + 72 + 16 * i

abbrev pub treebin_at : State → ℕ → ℕ
treebin_at s i = s.self + 600 + 8 * i

abbrev pub seg_at : State → ℕ
seg_at s = s.self + 888
