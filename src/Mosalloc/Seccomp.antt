-- ===== src/Mosalloc/Seccomp.antt =====
-- The answers to system calls that seccomp reports (the loop of src/libmosalloc/src/seccomp_hooks.rs).
--
-- Receiving a request and sending its answer is left to the seccomp library.
pub mod Break
use mosalloc_rs.Base.{
  ℕ, ◌+◌, ◌-◌, ◌%◌, ◌^◌, Bool, true, false, not, Option, none, some, if◌then◌else◌, ◌==◌, ltb,
  max_size_t,
}
use mosalloc_rs.Mosalloc.System.{Cmd, panic, ◌>>=◌, pure, get_errno, map_failed}
use mosalloc_rs.Mosalloc.Allocator.{
  Allocator, do_brk, mmap_request, munmap_request, mprotect_request, madvise_request,
  mremap_request,
}

-- Sysno, for the calls that are told apart.
pub data Sysno : Type 0 where
  brk : Sysno
  mmap : Sysno
  munmap : Sysno
  mprotect : Sysno
  madvise : Sysno
  mremap : Sysno
  other : Sysno

-- ScmpNotifReq::data
pub record Request : Type 0 where
  pub syscall : Sysno
  pub arg0 : ℕ
  pub arg1 : ℕ
  pub arg2 : ℕ
  pub arg3 : ℕ
  pub arg4 : ℕ
  pub arg5 : ℕ

pub record Response : Type 0 where
  pub ret : ℕ
  pub err : ℕ

-- `as i32`, and `as i64` of an i32, on bit patterns.
abbrev pub as_i32 : ℕ → ℕ
as_i32 n = n % 2 ^ 32

abbrev pub i32_as_i64 : ℕ → ℕ
i32_as_i64 n = if ltb n (2 ^ 31) then n else n + (2 ^ 64 - 2 ^ 32)

-- errno counts when the call has failed.
abbrev pub answer : Allocator → ℕ → Bool → Cmd (Allocator × Response)
answer a ret true = pure (a, record { ret = ret; err = 0 })
answer a ret false = do e ← get_errno; pure (a, record { ret = ret; err = e })

abbrev pub answer_pointer : Allocator × ℕ → Cmd (Allocator × Response)
answer_pointer out = answer out.0 out.1 (not (out.1 == map_failed))

abbrev pub answer_status : Allocator → ℕ → Cmd (Allocator × Response)
answer_status a ret = answer a (i32_as_i64 ret) (i32_as_i64 ret == 0)

abbrev pub answer_brk : ℕ → Allocator × ℕ → Cmd (Allocator × Response)
answer_brk addr out = answer out.0 (if not (out.1 == max_size_t) then addr else out.1) true

unfoldable pub handle : Allocator → Request → Cmd (Allocator × Response)
handle a req = by_call req.syscall
  where
    by_call : Sysno → Cmd (Allocator × Response)
    by_call brk = do out ← do_brk a (some (req.arg0)) none; answer_brk (req.arg0) out
    by_call mmap = do
      out ←
          mmap_request a (req.arg0) (req.arg1) (as_i32 (req.arg2)) (as_i32 (req.arg3))
            (as_i32 (req.arg4)) (req.arg5)
      answer_pointer out
    by_call munmap = do out ← munmap_request a (req.arg0) (req.arg1); answer_status (out.0) (out.1)
    by_call mprotect = do
      ret ← mprotect_request a (req.arg0) (req.arg1) (as_i32 (req.arg2))
      answer_status a ret
    by_call madvise = do
      ret ← madvise_request a (req.arg0) (req.arg1) (as_i32 (req.arg2))
      answer_status a ret
    by_call mremap = do
      out ← mremap_request a (req.arg0) (req.arg1) (req.arg2) (as_i32 (req.arg3)) (req.arg4)
      answer_pointer out
    by_call other = λ s. panic
