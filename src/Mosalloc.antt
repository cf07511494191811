-- ===== src/Mosalloc.antt =====
-- The Rust code: src/utils and src/libmosalloc, a module for each source file or for a part of one.
pub mod System
pub mod Misc
pub mod Htlb
pub mod FreeMap
pub mod Region
pub mod Allocator
pub mod Placement
pub mod Seccomp
pub mod Lock
pub mod RangeList
pub mod Reserve
pub mod Internal
mod Tests
