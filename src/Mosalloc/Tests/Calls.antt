-- ===== src/Mosalloc/Tests/Calls.antt =====
-- The theorems on the calls, tried on the small regions, and the placement of regions.
use mosalloc_rs.Base.{ℕ, ◌-◌, ◌^◌, ◌≤◌, ◌≡◌, refl, arith, [], ◌∷◌, true, false, if◌then◌else◌, ◌==◌}
use mosalloc_rs.Mosalloc.System.{ok, pure, mmap, map_failed, ◌>>=◌}
use mosalloc_rs.Mosalloc.System.Ends.{Ends}
use mosalloc_rs.Mosalloc.Htlb.AllocType.{brk, anon, file}
use mosalloc_rs.Mosalloc.Region.{contains, no_fd}
use mosalloc_rs.Mosalloc.Allocator.{sbrk, mmap_request, munmap_request}
use mosalloc_rs.Mosalloc.Allocator.Brk.{sbrk-sbrk}
use mosalloc_rs.Mosalloc.Allocator.Files.{with_end, mmap_request-munmap_request}
use mosalloc_rs.Mosalloc.Allocator.Forward.{mmap_request-nonstd}
use mosalloc_rs.Mosalloc.Seccomp.{Request, handle}
use mosalloc_rs.Mosalloc.Seccomp.Break.{Answers, handle-Answers}
use mosalloc_rs.Mosalloc.Placement.{Mapping, Search, search}
use mosalloc_rs.Mosalloc.Placement.Gaps.{CanPlace, Placed, search-Placed, search-contains}
use mosalloc_rs.Mosalloc.Tests.{
  sys, kind_libc-Maps, kind_libc-Obeys, small_region, small, small-IsPage, small-IsDrained,
  small-HasFiles, small-IsApart,
}

-- brk of one page more, as seccomp reports it.
abbrev page_more : Request
page_more = record {
  syscall = mosalloc_rs.Mosalloc.Seccomp.brk;
  arg0 = 0x103000;
  arg1 = 0;
  arg2 = 0;
  arg3 = 0;
  arg4 = 0;
  arg5 = 0;
}

handle-Answers_example :
    Ends (Answers small small-IsDrained page_more sys) (handle small page_more sys)
handle-Answers_example = handle-Answers small small-IsDrained page_more sys kind_libc-Maps refl

sbrk-sbrk_example :
    Ends
      (λ out s'. (out.1 ≡ 0x104000) × (out.0 ≡ small))
      ((sbrk small 0x2000 >>= λ o. sbrk o.0 (2 ^ 64 - 0x2000)) sys)
sbrk-sbrk_example =
    sbrk-sbrk small 0x2000 sys small-IsDrained kind_libc-Maps (omega arith) refl (omega arith)

mmap_request-munmap_request_example :
    Ends
      (λ out s'. out.0 ≡ with_end small out.0.file_region.end)
      ((mmap_request small 0 0x1234 1 2 5 0 >>= λ o.
          (if o.1 == map_failed then pure o else munmap_request o.0 o.1 0x1234))
        sys)
mmap_request-munmap_request_example =
    mmap_request-munmap_request small 0x1234 1 2 5 0 sys small-HasFiles small-IsApart kind_libc-Maps
      kind_libc-Obeys (omega arith) (omega arith) (omega arith) refl

-- MAP_PRIVATE and MAP_ANONYMOUS.
mmap_request-nonstd_example :
    mmap_request small 0 0x1000 3 0x22 no_fd 0 sys
    ≡ ok (small, 0) (record sys { trace = mmap 0 0x1000 3 0x22 no_fd 0 ∷ []; errno = 17 })
mmap_request-nonstd_example = mmap_request-nonstd small 0x1000 3 0x22 0 sys refl refl (omega arith)

-- Nothing is placed yet.
abbrev unplaced : ℕ → ℕ → Search
unplaced last upper = record {
  heap = record (small_region brk 0 0) { free_map = []; max = 0 };
  anon_region = record (small_region anon 0 0) { free_map = []; max = 0 };
  file_region = record (small_region file 0 0) { free_map = []; max = 0 };
  last = last;
  upper = upper;
  region = brk;
}

unplaced-CanPlace : (last upper : ℕ) → CanPlace (unplaced last upper)
unplaced-CanPlace last upper = record {
  heap = small-IsPage;
  anon_region = small-IsPage;
  file_region = small-IsPage;
}

abbrev mapping : ℕ → ℕ → Mapping
mapping low high = record { low = low; high = high; stack = false }

search-Placed_example :
    Ends
      (λ q' s'. (p : ℕ) × (0x20000 ≤ p) × Placed (unplaced 0 0x20000) q' p 0x700000000000)
      (search
        (mapping 0x10000 0x20000 ∷ mapping 0x700000000000 0x700000100000 ∷ [])
        (unplaced 0 0x20000)
        sys)
search-Placed_example =
    search-Placed (mapping 0x10000 0x20000) (mapping 0x700000000000 0x700000100000) []
      (unplaced 0 0x20000) sys (unplaced-CanPlace 0 0x20000) refl (omega arith) (omega arith)
      (λ p. omega arith) (omega arith) (omega arith)

search-contains_example :
    Ends
      (λ q' s'. contains q'.anon_region 0x24000 ≡ true)
      (search
        (mapping 0x24000 0x25000 ∷ mapping 0x80000 0x90000 ∷ [])
        (record (unplaced 0x20000 0x20000) { region = anon })
        sys)
search-contains_example =
    search-contains (mapping 0x24000 0x25000) (mapping 0x80000 0x90000) (unplaced 0x20000 0x20000)
      sys (unplaced-CanPlace 0x20000 0x20000) (omega arith) (omega arith) (omega arith) refl refl
      (omega arith) (omega arith) (omega arith)
