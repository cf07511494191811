-- ===== src/Dlmalloc/Params.antt =====
-- Setting mparams, the spin lock, and the operations on mflags (dlmalloc/dlmalloc.c, "setting
-- mparams", "system alloc setup", "Hooks", and the plain spin locks of "Lock preliminaries").
pub mod Align
pub mod Tunable
pub mod Lock
use mosalloc_rs.Base.{
  ℕ, zero, suc, ◌+◌, ◌-◌, ◌*◌, ◌/◌, ◌%◌, ◌^◌, bit_and, bit_xor, Bool, true, false, ◌&&◌, not,
  if◌then◌else◌, ◌==◌, leb, ltb, add64, sub64, and_not, max_size_t,
}
use mosalloc_rs.Dlmalloc.State.{
  State, Params, Cmd, ok, blocked, ◌>>=◌, ◌>>◌, pure, get, modify, skip, error_action,
}

abbrev pub use_mmap_bit : ℕ
use_mmap_bit = 1

abbrev pub use_lock_bit : ℕ
use_lock_bit = 2

abbrev pub use_noncontiguous_bit : ℕ
use_noncontiguous_bit = 4

abbrev pub extern_bit : ℕ
extern_bit = 8

-- use_mmap, use_lock and use_noncontiguous: bits 0, 1 and 2 of mflags.
abbrev pub use_mmap : State → Bool
use_mmap s = s.mflags % 2 == 1

abbrev pub use_lock : State → Bool
use_lock s = s.mflags / 2 % 2 == 1

abbrev pub use_noncontiguous : State → Bool
use_noncontiguous s = s.mflags / 4 % 2 == 1

abbrev pub enable_mmap : Cmd (Unit {0})
enable_mmap = modify (λ s. record s { mflags = if use_mmap s then s.mflags else s.mflags + 1 })

abbrev pub disable_mmap : Cmd (Unit {0})
disable_mmap = modify (λ s. record s { mflags = if use_mmap s then s.mflags - 1 else s.mflags })

abbrev pub disable_contiguous : Cmd (Unit {0})
disable_contiguous =
    modify (λ s. record s { mflags = if use_noncontiguous s then s.mflags else s.mflags + 4 })

-- page_align and granularity_align, with the unit of mparams.
unfoldable pub align_to : ℕ → ℕ → ℕ
align_to unit n = and_not (add64 n (sub64 unit 1)) (sub64 unit 1)

abbrev pub page_align : State → ℕ → ℕ
page_align s n = align_to s.mparams.page_size n

abbrev pub mmap_align : State → ℕ → ℕ
mmap_align s n = page_align s n

abbrev pub granularity_align : State → ℕ → ℕ
granularity_align s n = align_to s.mparams.granularity n

abbrev pub is_page_aligned : State → ℕ → Bool
is_page_aligned s n = bit_and n (sub64 s.mparams.page_size 1) == 0

abbrev pub should_trim : State → ℕ → Bool
should_trim s n = ltb s.trim_check n

-- DEFAULT_MMAP_THRESHOLD, DEFAULT_TRIM_THRESHOLD and MAX_RELEASE_CHECK_RATE.
abbrev pub default_mmap_threshold : ℕ
default_mmap_threshold = 256 * 1024

abbrev pub default_trim_threshold : ℕ
default_trim_threshold = 2 * 1024 * 1024

abbrev pub max_release_check_rate : ℕ
max_release_check_rate = 4095

-- ACQUIRE_LOCK and RELEASE_LOCK, for the one thread of a command: a lock that is held is waited
-- for, and no other command runs that would release it.
abbrev pub preaction : Cmd (Unit {0})
preaction s =
    if use_lock s
    then (if s.mutex == 0 then ok tt (record s { mutex = 1 }) else blocked)
    else ok tt s

abbrev pub postaction : Cmd (Unit {0})
postaction s = if use_lock s then ok tt (record s { mutex = 0 }) else ok tt s

abbrev pub acquire_global_lock : Cmd (Unit {0})
acquire_global_lock s =
    if s.global_mutex == 0 then ok tt (record s { global_mutex = 1 }) else blocked

abbrev pub release_global_lock : Cmd (Unit {0})
release_global_lock = modify (λ s. record s { global_mutex = 0 })

-- (x & (x - 1)) != 0
abbrev pub not_power : ℕ → Bool
not_power x = not (bit_and x (sub64 x 1) == 0)

-- The magic number made of the time: ^ 0x55555555, |= 8, &= ~7.
abbrev pub magic_of : ℕ → ℕ
magic_of t =
    let x = bit_xor t 0x55555555 in let y = if x / 8 % 2 == 1 then x else x + 8 in y - y % 8

-- The body of `if (mparams.magic == 0)`. DEFAULT_GRANULARITY is 0, so the granularity is the page
-- size; the other conditions of the sanity check are on constants.
abbrev pub setup_mparams : Cmd (Unit {0})
setup_mparams = do
  s ← get
  let psize = s.os.getpagesize
  if not_power psize then error_action else skip
  modify (λ s'. record s' {
    mparams = record {
      magic = magic_of (s.os.time s.calls);
      page_size = psize;
      granularity = psize;
      mmap_threshold = default_mmap_threshold;
      trim_threshold = default_trim_threshold;
      default_mflags = use_lock_bit + use_mmap_bit;
    };
    mflags = use_lock_bit + use_mmap_bit;
    mutex = 0;
    calls = s'.calls + 1;
  })

unfoldable pub init_mparams : Cmd ℕ
init_mparams = do
  acquire_global_lock
  s ← get
  if s.mparams.magic == 0 then setup_mparams else skip
  release_global_lock
  pure 1

abbrev pub ensure_initialization : Cmd (Unit {0})
ensure_initialization s = if s.mparams.magic == 0 then (init_mparams >>= λ _. skip) s else ok tt s

-- The `int` arguments of change_mparam are 32-bit patterns: M_TRIM_THRESHOLD is -1, M_GRANULARITY
-- -2 and M_MMAP_THRESHOLD -3.
abbrev pub m_trim_threshold : ℕ
m_trim_threshold = 2 ^ 32 - 1

abbrev pub m_granularity : ℕ
m_granularity = 2 ^ 32 - 2

abbrev pub m_mmap_threshold : ℕ
m_mmap_threshold = 2 ^ 32 - 3

-- (value == -1)? MAX_SIZE_T : (size_t)value
abbrev pub size_of_int : ℕ → ℕ
size_of_int value =
    if value == 2 ^ 32 - 1
    then max_size_t
    else if ltb value (2 ^ 31)
    then value
    else value + (2 ^ 64 - 2 ^ 32)

unfoldable pub change_mparam : ℕ → ℕ → Cmd ℕ
change_mparam number value = do
  ensure_initialization
  s ← get
  let val = size_of_int value
  if number == m_trim_threshold
      then (do
        modify (λ s'. record s' { mparams = record (s'.mparams) { trim_threshold = val } })
        pure 1)
      else if number == m_granularity
      then (if leb s.mparams.page_size val && (bit_and val (sub64 val 1) == 0)
          then (do
            modify (λ s'. record s' { mparams = record (s'.mparams) { granularity = val } })
            pure 1)
          else pure 0)
      else if number == m_mmap_threshold
      then (do
        modify (λ s'. record s' { mparams = record (s'.mparams) { mmap_threshold = val } })
        pure 1)
      else pure 0
