-- ===== src/Base/Words.antt =====
-- `size_t` and `unsigned int` arithmetic, with its wrap-around. The masks of the C code that are
-- constants of the form 2^k - 1 are written as remainders: x & (2^k - 1) is x % 2^k, and
-- x & ~(2^k - 1) is x - x % 2^k.
use Prim.Native.Nat.{ℕ, ◌+◌, ◌-◌, ◌*◌, ◌/◌, ◌%◌, ◌^◌, bit_and}

-- MAX_SIZE_T
abbrev pub max_size_t : ℕ
max_size_t = 2 ^ 64 - 1

abbrev pub add64 : ℕ → ℕ → ℕ
add64 a b = (a + b) % 2 ^ 64

abbrev pub sub64 : ℕ → ℕ → ℕ
sub64 a b = (a + 2 ^ 64 - b) % 2 ^ 64

abbrev pub mul64 : ℕ → ℕ → ℕ
mul64 a b = a * b % 2 ^ 64

abbrev pub shl64 : ℕ → ℕ → ℕ
shl64 x k = x * 2 ^ k % 2 ^ 64

abbrev pub shr : ℕ → ℕ → ℕ
shr x k = x / 2 ^ k

abbrev pub neg32 : ℕ → ℕ
neg32 x = (2 ^ 32 - x) % 2 ^ 32

abbrev pub shl32 : ℕ → ℕ → ℕ
shl32 x k = x * 2 ^ k % 2 ^ 32

-- x & ~m: the bits that x and m share are taken away.
abbrev pub and_not : ℕ → ℕ → ℕ
and_not x m = x - bit_and x m
