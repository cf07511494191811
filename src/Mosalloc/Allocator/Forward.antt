-- ===== src/Mosalloc/Allocator/Forward.antt =====
-- Requests for the anonymous region that libc serves, and mremap inside of the regions.
use mosalloc_rs.Base.{ℕ, ◌∷◌, ◌/◌, ◌%◌, ◌≡◌, ◌≢◌, refl, arith, true, false, bit_and, ne→==, eq→==}
use mosalloc_rs.Base.Bits.{bit_and-half}
use mosalloc_rs.Mosalloc.System.{Sys, ok, panic, mmap}
use mosalloc_rs.Mosalloc.Htlb.{is_anon}
use mosalloc_rs.Mosalloc.Region.{contains, lock, no_fd}
use mosalloc_rs.Mosalloc.Allocator.{
  Allocator, nonstd_flags, mmap_request, mremap_request, mremap_fixed,
}

nonstd_low : nonstd_flags ≡ 0x40103
nonstd_low = refl

low_bits : (flags : ℕ) → flags % 4 ≢ 0 → bit_and flags nonstd_flags ≢ 0
low_bits flags h =
    let one = bit_and-half flags 0x40103 in
    let two = bit_and-half (flags / 2) 0x20081 in
    rw nonstd_low (λ none. h (ground (arith, one, two)))

-- In a drained allocator, mmap without a file and an address, with any flags whose lowest two bits
-- are not both clear, as they are not with MAP_PRIVATE and MAP_SHARED, is one call of libc's mmap
-- with the same arguments, and leaves the allocator as it was.
pub mmap_request-nonstd :
    (a : Allocator) (len prot flags offset : ℕ) (s : Sys)
    → a.drained ≡ true
    → is_anon a.anon_region.alloc_type ≡ true
    → flags % 4 ≢ 0
    → mmap_request a 0 len prot flags no_fd offset s
      ≡ ok
          (a, (s.libc s.trace (mmap 0 len prot flags no_fd offset) s.errno).value)
          (record s {
            trace = mmap 0 len prot flags no_fd offset ∷ s.trace;
            errno = (s.libc s.trace (mmap 0 len prot flags no_fd offset) s.errno).errno;
          })
unfolding mmap_request
mmap_request-nonstd a len prot flags offset s drained kind h =
    rw (drained, kind, ne→== (bit_and flags nonstd_flags) 0 (low_bits flags h)) refl

pub mremap_request-panic :
    (a : Allocator) (old_address old_size new_size flags new_address : ℕ) (s : Sys)
    → contains a.heap old_address ≡ false
    → contains a.anon_region old_address ≡ true
    → a.anon_region.lock ≡ true
    → bit_and flags mremap_fixed ≡ 0
    → mremap_request a old_address old_size new_size flags new_address s ≡ panic
unfolding mremap_request lock
mremap_request-panic a old_address old_size new_size flags new_address s heap here free h =
    rw (heap, here, free, eq→== (bit_and flags mremap_fixed) 0 h) refl
