-- ===== src/Mosalloc/Htlb.antt =====
-- Pools of huge pages (src/utils/htlb.rs).
use mosalloc_rs.Base.{ℕ, ◌≡◌, refl, List, [], ◌∷◌, Bool, true, false, ◌&&◌, ◌==◌, leb, bit_and}
use mosalloc_rs.Mosalloc.System.{Cmd, panic, ◌>>◌, pure, assert}

abbrev pub page_size : ℕ
page_size = 4096

pub data AllocType : Type 0 where
  brk : AllocType
  anon : AllocType
  file : AllocType

-- `==` on AllocType, for the two types that it is compared with.
abbrev pub is_anon : AllocType → Bool
is_anon brk = false
is_anon anon = true
is_anon file = false

abbrev pub is_file : AllocType → Bool
is_file brk = false
is_file anon = false
is_file file = true

pub is_file-anon : (t : AllocType) → is_file t ≡ true → is_anon t ≡ false
is_file-anon brk h = refl
is_file-anon anon h = absurd (cc)
is_file-anon file h = refl

pub record Interval : Type 0 where
  pub pagesz : ℕ
  pub start : ℕ
  pub end : ℕ

pub record Pool : Type 0 where
  pub alloc_type : AllocType
  pub intervals : List Interval

-- Pool::new_file_pool, whose assertion is about one bit.
unfoldable pub new_file_pool : ℕ → Cmd Pool
new_file_pool sz = do
  assert (bit_and sz page_size == 0)
  pure (record {
    alloc_type = file;
    intervals = record { pagesz = page_size; start = 0; end = sz } ∷ [];
  })

-- The assertion of Pool::from_csv on the sorted intervals: `prev` stays the first one.
abbrev pub none_below : ℕ → List Interval → Bool
none_below end [] = true
none_below end (x ∷ xs) = leb end x.start && none_below end xs

unfoldable pub check_overlap : List Interval → Cmd (Unit {0})
check_overlap [] = λ s. panic
check_overlap (x ∷ xs) = assert (none_below x.end xs)
