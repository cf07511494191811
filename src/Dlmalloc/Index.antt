-- ===== src/Dlmalloc/Index.antt =====
-- Indexing bins, and operations on bin maps (dlmalloc/dlmalloc.c, "Indexing Bins" and "Operations
-- on bin maps"). The maps are 32-bit words.
pub mod Tree
pub mod Maps
pub mod Marks
use mosalloc_rs.Base.{
  ℕ, zero, suc, ◌+◌, ◌-◌, ◌*◌, ◌/◌, ◌%◌, ◌^◌, bit_and, bit_or, Bool, true, false, if◌then◌else◌,
  ◌==◌, ltb, shr, shl32, neg32,
}

abbrev pub nsmallbins : ℕ
nsmallbins = 32

abbrev pub ntreebins : ℕ
ntreebins = 32

abbrev pub min_large_size : ℕ
min_large_size = 256

abbrev pub is_small : ℕ → Bool
is_small n = ltb (shr n 3) nsmallbins

-- `(bindex_t)`: the shifted size is cut to 32 bits.
abbrev pub small_index : ℕ → ℕ
small_index n = shr n 3 % 2 ^ 32

abbrev pub small_index2size : ℕ → ℕ
small_index2size i = i * 8

-- The position of the highest bit that is set, by halving: the bits of `unsigned int` below
-- __builtin_clz. `fuel` bounds the bits.
unfoldable pub highest_bit : ℕ → ℕ → ℕ
highest_bit zero x = 0
highest_bit (suc fuel) x = if ltb x 2 then 0 else suc (highest_bit fuel (x / 2))

-- compute_tree_index, the variant for gcc on x86. `unsigned int X = S >> TREEBIN_SHIFT` keeps 32
-- bits.
unfoldable pub compute_tree_index : ℕ → ℕ
compute_tree_index n =
    let x = shr n 8 % 2 ^ 32 in
    if x == 0
    then 0
    else if ltb 65535 x
    then ntreebins - 1
    else (let k = highest_bit 32 x in k * 2 + shr n (k + 7) % 2)

abbrev pub leftshift_for_tree_index : ℕ → ℕ
leftshift_for_tree_index i = if i == ntreebins - 1 then 0 else 63 - (i / 2 + 8 - 2)

abbrev pub minsize_for_tree_index : ℕ → ℕ
minsize_for_tree_index i = 2 ^ (i / 2 + 8) + i % 2 * 2 ^ (i / 2 + 8 - 1)

-- The bit maps. idx2bit(i) is 2 ^ i.
abbrev pub map_is_marked : ℕ → ℕ → Bool
map_is_marked m i = m / 2 ^ i % 2 == 1

-- m | idx2bit(i) and m & ~idx2bit(i).
abbrev pub mark_map : ℕ → ℕ → ℕ
mark_map m i = if map_is_marked m i then m else m + 2 ^ i

abbrev pub clear_map : ℕ → ℕ → ℕ
clear_map m i = if map_is_marked m i then m - 2 ^ i else m

unfoldable pub least_bit : ℕ → ℕ
least_bit x = bit_and x (neg32 x)

-- (x << 1) | -(x << 1)
unfoldable pub left_bits : ℕ → ℕ
left_bits x = bit_or (shl32 x 1) (neg32 (shl32 x 1))

-- __builtin_ctz: the position of the lowest bit that is set.
lowest_bit : ℕ → ℕ → ℕ
lowest_bit zero x = 0
lowest_bit (suc fuel) x = if x % 2 == 1 then 0 else suc (lowest_bit fuel (x / 2))

unfoldable pub compute_bit2idx : ℕ → ℕ
unfolding lowest_bit
compute_bit2idx x = lowest_bit 32 x
