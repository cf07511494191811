-- ===== src/Dlmalloc.antt =====
-- dlmalloc/dlmalloc.c, a module for each section of the file. The configuration is that of
-- dlmalloc/Makefile with gcc on 64-bit Linux: USE_LOCKS 1, USE_SPIN_LOCKS 1, no FOOTERS, no
-- MSPACES, no DEBUG, not INSECURE, PROCEED_ON_ERROR 0, HAVE_MMAP, HAVE_MREMAP, HAVE_MORECORE.
pub mod State
pub mod Sizes
pub mod Chunk
pub mod Index
pub mod Smallbin
pub mod Treebin
pub mod Params
pub mod Mmap
pub mod Segment
pub mod SysAlloc
pub mod SysTrim
pub mod Dispose
pub mod Malloc
pub mod Free
pub mod Realloc
pub mod Memalign
pub mod Ialloc
pub mod Exported
mod Tests
