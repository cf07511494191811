-- ===== src/Mosalloc/Misc.antt =====
-- Alignment of sizes (src/utils/misc.rs).
pub mod Aligned
use mosalloc_rs.Base.{
  ℕ, Bool, true, false, ◌&&◌, not, if◌then◌else◌, ◌==◌, add64, sub64, bit_and, and_not,
}
use mosalloc_rs.Mosalloc.System.{Cmd, ◌>>◌, pure, assert}

-- usize::is_power_of_two
abbrev pub is_power_of_two : ℕ → Bool
is_power_of_two m = not (m == 0) && bit_and m (sub64 m 1) == 0

abbrev pub aligned_down : ℕ → ℕ → ℕ
aligned_down n m = and_not n (sub64 m 1)

abbrev pub aligned : ℕ → ℕ → Bool → ℕ
aligned n m up = let ret = aligned_down n m in if up && not (ret == n) then add64 ret m else ret

unfoldable pub align : ℕ → ℕ → Bool → Cmd ℕ
align n m up = do assert (is_power_of_two m); pure (aligned n m up)

unfoldable pub align_up : ℕ → ℕ → Cmd ℕ
unfolding align
align_up n m = align n m true

unfoldable pub align_down : ℕ → ℕ → Cmd ℕ
unfolding align
align_down n m = align n m false

unfoldable pub is_aligned : ℕ → ℕ → Cmd Bool
is_aligned n m = do assert (is_power_of_two m); pure (bit_and n (sub64 m 1) == 0)
