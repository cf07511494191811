-- ===== src/Lib.antt =====
-- Verification of mosalloc-rs: its library libmosalloc and the allocator bundled with it,
-- dlmalloc/dlmalloc.c.
--
-- libmosalloc (src/libmosalloc/src) takes over the memory calls of a process: it places three
-- regions in the address space, for brk, for anonymous mappings and for files, and serves brk,
-- mmap, munmap and mremap from them with pages of the sizes that a configuration asks for.
-- mosalloc-rs builds dlmalloc (dlmalloc/Makefile) and serves malloc calls with it on top of the
-- regions.
--
-- Mosalloc: each Rust file has its module, under the source's names. Mosalloc.Misc is
-- src/utils/misc.rs (alignment), Mosalloc.Htlb the pools of src/utils/htlb.rs. Mosalloc.FreeMap
-- and Mosalloc.Region are region.rs: the first has the list of free ranges with
-- del_range_from_freemap and add_range_to_freemap, the second the region around it.
-- Mosalloc.Allocator and Mosalloc.Placement are allocator.rs: the calls (mmap as mmap_request and
-- so on, as the names of the calls of libc are used for these), and Allocator::new.
-- Mosalloc.Internal is internal_allocator.rs, Mosalloc.Lock is lock.rs, Mosalloc.Seccomp is the
-- dispatch of system calls in seccomp_hooks.rs, Mosalloc.RangeList is src/utils/rangelist.rs, and
-- Mosalloc.Reserve is the reservation of pages in htlb.rs, on the files of sysfs as a parameter.
--
-- State: the regions and the allocator are records and are passed on. A command (Mosalloc.System)
-- ends with a result, panics, waits for a lock that nobody releases, writes where no memory is, or
-- uses up the rounds of a loop. What is not here, the calls of libc, is the field libc of Sys: it
-- answers a call by the calls made before, and a theorem that relies on an answer has it as a
-- hypothesis. The lines of /proc/self/maps and the pools read from the configuration are
-- arguments. The lock of a region is a flag in the record, since one call runs at a time there;
-- Mosalloc.Lock has any number of threads, whose steps a schedule orders. An usize is a natural
-- number, its wrap-around written out as the release build of the README has it; an i32 or isize
-- stands for its bit pattern.
--
-- Dlmalloc: dlmalloc.c as it is compiled there for 64-bit Linux with gcc: a global malloc_state
-- with a spin lock, without FOOTERS, MSPACES and DEBUG, where a detected corruption or usage error
-- aborts. Every function and macro stands in the module that is named for its section, under its
-- own name; where a C function is split, the parts are named for what they do and stand in the
-- order of the code.
--
-- How its parts interact: malloc (Dlmalloc.Malloc) looks in the smallbins (Dlmalloc.Smallbin), the
-- treebins (Dlmalloc.Treebin), the designated victim and top, then asks the system
-- (Dlmalloc.SysAlloc, Dlmalloc.Mmap), which adds segments (Dlmalloc.Segment). free (Dlmalloc.Free)
-- and dispose_chunk (Dlmalloc.Dispose) join a chunk with its free neighbours, bin it, and give
-- memory back (Dlmalloc.SysTrim). realloc and calloc (Dlmalloc.Realloc), memalign
-- (Dlmalloc.Memalign), the independent allocation (Dlmalloc.Ialloc) and the rest of the interface
-- (Dlmalloc.Exported) are built on these.
--
-- Its state: Dlmalloc.State has the malloc_state as a record. What the code reaches through
-- pointers, chunks, bins and segment records, stands in a memory of words by address; the offsets
-- are those of the 64-bit layout. A function of the code is a command: from a state it gives a
-- result and a state, aborts, blocks on a lock that is held, or runs out of fuel. sbrk, mmap,
-- munmap, mremap, getpagesize and time are code that is not here: the record Os, a field of the
-- state, answers the calls.
--
-- Numbers of dlmalloc: size_t and unsigned int are natural numbers with the wrap-around written
-- out (Base.Words). Masks of low bits are remainders; other bit operations are those of the native
-- numbers (Base.Bits has their laws).
--
-- Modules of proofs: Base/Bits (laws of bit operations), Base/Lists, and below Mosalloc:
-- System/Ends (total correctness of commands), Misc/Aligned, FreeMap/Sorted, Delete, Address,
-- Merge, Add and Canonical, Region/Pages, Invariant, Allocate and Release, Allocator/Heap, Brk,
-- Files and Forward, Seccomp/Break, Placement/Start and Gaps, Internal/Blocks, Live and Resize,
-- Lock/Exclusion and Progress, RangeList/Collect, Reserve/Granted. Below Dlmalloc: State/Returns
-- (total correctness of commands), Smallbin/Chain, Unlink, Bin and Remove (a smallbin as a list of
-- chunks), Treebin/Alone (a chunk alone in its treebin), Index/Tree, Maps and Marks, Sizes/Bounds,
-- Params/Align, Tunable and Lock, Segment/Rings, SysAlloc/Obtain/Contiguous, SysAlloc/First and
-- NewHeap, Malloc/Top, Sequence, First, NewHeap, Exact, Victim and Smallest, Free/Top, Binned and
-- Mapped, Realloc/Request, Bytes, Cleared and Grow, Mmap/Limit, Memalign/Power and Place,
-- Exported/Limit and Usable. Mosalloc/Tests and Dlmalloc/Tests run the theorems on small regions
-- and a small heap.
--
-- Fuel: the loop of alloc_range over pages has one round more than the range has bytes, which is
-- enough, since each round moves up (Region/Pages). The loops of dlmalloc along segments, trees
-- and fenceposts take the field `rounds` of the state as fuel; the theorems listed below do not
-- depend on it. The loops over the bits of a word have 32 or 64 rounds, which is the width of the
-- word. The loop over the bins is recursion on their number, those over arrays and lists recursion
-- on their length.
--
-- Not modelled: in dlmalloc the checks under DEBUG, the statistics (mallinfo, malloc_stats),
-- mspaces, malloc_inspect_all, recursive locks and Windows, which are compiled out or only report;
-- concurrency beyond the blocking of a held lock. In the Rust code the output by println,
-- Allocator::drain, the hooks (preload_hooks.rs, init.rs, and the threads and filters of
-- seccomp_hooks.rs), the reading of the configuration and other text, and the sums over a pool in
-- src/utils, and the programs in src/bin.
pub mod Base
pub mod Dlmalloc
pub mod Mosalloc
