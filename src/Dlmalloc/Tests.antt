-- ===== src/Dlmalloc/Tests.antt =====
-- A small heap to try the theorems on: its top chunk stands at 8192 and has 4096 bytes, the
-- smallbin of the chunks of 48 bytes holds those at 16384 and 32768.
mod Heap
mod Bins
mod Numbers
mod Growth
use mosalloc_rs.Base.{ℕ, ◌^◌, if◌then◌else◌, ◌==◌, max_size_t}
use mosalloc_rs.Dlmalloc.State.{State, Os, Params, Mem}

-- A system that gives one mapping, at 65536, and takes every mapping back.
abbrev pub small_os : Os
small_os = record {
  sbrk = λ n a m. (max_size_t, m);
  mmap = λ n a m. (65536, m);
  munmap = λ n a l m. (0, m);
  mremap = λ n a o l f m. (max_size_t, m);
  getpagesize = 4096;
  time = λ n. 0;
}

abbrev pub usual_params : Params
usual_params = record {
  magic = 8;
  page_size = 4096;
  granularity = 4096;
  mmap_threshold = 262144;
  trim_threshold = 2097152;
  default_mflags = 3;
}

abbrev pub head_of_top : Mem
head_of_top a = if a == 8200 then 4097 else 0

abbrev pub only_top : State
only_top = record {
  smallmap = 0;
  treemap = 0;
  dvsize = 0;
  topsize = 4096;
  least_addr = 4096;
  dv = 0;
  top = 8192;
  trim_check = 2097152;
  release_checks = 4095;
  magic = 8;
  footprint = 4096;
  max_footprint = 4096;
  footprint_limit = 0;
  mflags = 3;
  mutex = 0;
  self = 1048576;
  mem = head_of_top;
  mparams = usual_params;
  global_mutex = 0;
  errno = 0;
  os = small_os;
  calls = 0;
  rounds = 64;
}

-- A system whose break stands at 65536, and a heap without memory on it.
abbrev pub break_os : Os
break_os = record small_os { sbrk = λ n a m. (65536, m) }

abbrev pub no_memory : State
no_memory = record only_top {
  topsize = 0;
  top = 0;
  least_addr = 0;
  footprint = 0;
  os = break_os;
  mem = λ a. 0;
}

-- The header of smallbin 6.
abbrev pub bin48 : ℕ
bin48 = 1048744

abbrev pub two_chunks : Mem
two_chunks a =
    if a == 1048760
    then 16384
    else if a == 1048768
    then 32768
    else if a == 16400
    then 32768
    else if a == 16408
    then bin48
    else if a == 32784
    then bin48
    else if a == 32792
    then 16384
    else 0

abbrev pub binned : State
binned = record only_top { smallmap = 64; mem = two_chunks }

-- A designated victim of 96 bytes at 4096.
abbrev pub with_dv : State
with_dv = record only_top { dv = 4096; dvsize = 96 }

-- The chunk at 16384 in use, like the one behind it, and the one at 32768 in its bin.
abbrev pub one_chunk : Mem
one_chunk a =
    if a == 16392
    then 51
    else if a == 16440
    then 35
    else if a == 1048760
    then 32768
    else if a == 1048768
    then 32768
    else if a == 32784
    then bin48
    else if a == 32792
    then bin48
    else 0

abbrev pub in_use : State
in_use = record only_top { smallmap = 64; mem = one_chunk }

-- A chunk of 64 bytes in use in front of top.
abbrev pub used_before_top : Mem
used_before_top a = if a == 8200 then 4097 else if a == 8136 then 67 else 0

abbrev pub before_top : State
before_top = record only_top { mem = used_before_top }

abbrev pub limited : State
limited = record only_top { footprint_limit = 1000000 }

-- A tree of a node of 1024 bytes at 16384 and its left child of 768 bytes at 20480.
abbrev pub two_nodes : Mem
two_nodes a =
    if a == 16392 then 1025 else if a == 16416 then 20480 else if a == 20488 then 769 else 0

abbrev pub with_tree : State
with_tree = record only_top { mem = two_nodes }
