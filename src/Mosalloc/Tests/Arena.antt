-- ===== src/Mosalloc/Tests/Arena.antt =====
-- The theorems on the arena, tried on one with two blocks.
use mosalloc_rs.Base.{ℕ, ◌+◌, ◌<◌, ◌≡◌, refl, ◌⊎◌, inl, arith, List, [], ◌∷◌, true}
use mosalloc_rs.Mosalloc.System.{segfault}
use mosalloc_rs.Mosalloc.System.Ends.{Ends}
use mosalloc_rs.Mosalloc.FreeMap.{Range}
use mosalloc_rs.Mosalloc.Internal.{InternalAllocator, Layout, alloc_helper, dealloc, realloc}
use mosalloc_rs.Mosalloc.Internal.Blocks.{IsArena}
use mosalloc_rs.Mosalloc.Internal.Live.{IsSmall, block, Gives, alloc_helper-Gives, dealloc-IsArena}
use mosalloc_rs.Mosalloc.Internal.Resize.{Resized, Stuck, sized, realloc-Resized}
use mosalloc_rs.Mosalloc.Tests.{sys}

abbrev arena : InternalAllocator
arena = record { arena = 0x40000; idx = 0x60; mmap_total = 0; mmap_overhead = 0; memory = λ p. 7 }

-- The second block is the last one.
abbrev blocks : List Range
blocks = block 0x40000 0x20 ∷ block 0x40020 0x40 ∷ []

arena-IsArena : IsArena arena blocks
arena-IsArena = record {
  aligned = refl;
  base = omega arith;
  bound = omega arith;
  top = omega arith;
  blocks = ((omega arith, omega arith, omega arith), ((omega arith, omega arith, omega arith), tt));
  disjoint = ((inl (omega arith), tt), (tt, tt));
}

abbrev words : ℕ → Layout
words n = record { size = n; align = 8 }

words-IsSmall : (n : ℕ) → 0 < n → n < 4096 → IsSmall (words n) 3
words-IsSmall n pos small = record {
  some_size = pos;
  size = small;
  align = refl;
  power = omega arith;
}

abbrev ten : IsSmall (words 10) 3
ten = words-IsSmall 10 (omega arith) (omega arith)

alloc_helper-Gives_example :
    Ends
      (λ out s'. (s' ≡ sys) × Gives arena blocks arena-IsArena (words 10) 3 ten true out)
      (alloc_helper arena (words 10) true sys)
alloc_helper-Gives_example = alloc_helper-Gives arena blocks arena-IsArena (words 10) 3 ten true sys

dealloc-IsArena_example :
    Ends
      (λ a' s'.
        (s' ≡ sys)
        × IsArena a' (block 0x40000 0x20 ∷ [])
        × (a' ≡ record arena { idx = a'.idx })
        × (arena.arena + a'.idx ≡ 0x40020))
      (dealloc arena 0x40020 (words 0x40) sys)
dealloc-IsArena_example =
    dealloc-IsArena arena (block 0x40000 0x20 ∷ []) 0x40020 [] (words 0x40) sys (omega arith)
      arena-IsArena

abbrev old : IsSmall (words 0x20) 3
old = words-IsSmall 0x20 (omega arith) (omega arith)

abbrev new : IsSmall (sized (words 0x20) 0x30) 3
new = words-IsSmall 0x30 (omega arith) (omega arith)

-- The first block has to move.
realloc-Resized_example :
    Ends
      (λ out s'.
        (s' ≡ sys)
        × Resized arena [] 0x40000
            (block 0x40020 0x40 ∷ [])
            (words 0x20)
            3
            0x30
            arena-IsArena
            old
            new
            refl
            sys
            out)
      (realloc arena 0x40000 (words 0x20) 0x30 sys)
    ⊎ (Stuck arena [] 0x40000
          (block 0x40020 0x40 ∷ [])
          (words 0x20)
          3
          0x30
          arena-IsArena
          old
          new
          refl
          sys
        × (realloc arena 0x40000 (words 0x20) 0x30 sys ≡ segfault))
realloc-Resized_example =
    realloc-Resized arena [] 0x40000 (block 0x40020 0x40 ∷ []) (words 0x20) 3 0x30 arena-IsArena old
      new refl sys
