-- ===== src/Mosalloc/Tests/Nodes.antt =====
-- A node with pages of 2MB and 1GB, of which the kernel grants all that are asked for.
use mosalloc_rs.Base.{ℕ, ◌≡◌, refl, arith, [], ◌∷◌, false, some}
use mosalloc_rs.Mosalloc.Reserve.{Sysfs, reserve_pages}
use mosalloc_rs.Mosalloc.Reserve.Granted.{AllReserved, with_pages, reserve_pages-AllReserved}

abbrev node : Sysfs
node = record { sizes = 2097152 ∷ 1073741824 ∷ []; grant = λ f sz nr. nr; pages = λ x. 0 }

reserve_pages-AllReserved_example :
    (g : ℕ → ℕ) × (reserve_pages (3 ∷ 1 ∷ []) node ≡ some (with_pages node g, false))
    × AllReserved ((2097152, 3) ∷ (1073741824, 1) ∷ []) g
reserve_pages-AllReserved_example =
    reserve_pages-AllReserved node (3 ∷ 1 ∷ []) (λ f sz nr. refl) ((omega arith, tt), (tt, tt))
