-- ===== src/Mosalloc/Reserve/Granted.antt =====
-- What reserve_pages answers when the kernel grants every request.
use mosalloc_rs.Base.{
  ℕ, ◌≡◌, ◌≢◌, refl, ◌∙◌, arith, List, [], ◌∷◌, ◌++◌, All, All-mono, true, false, some,
  if◌then◌else◌, ◌==◌, ltb, eq→==, ne→==, Bool-cases, inl, inr,
}
use mosalloc_rs.Mosalloc.Reserve.{
  Sysfs, supported, set_htlb_pages_node, get_htlb_pages_node, zip, rev, raise_one, raise_all,
  set_all, some_differs, reserve_pages, ◌>>=◌,
}

abbrev pub Grants : Sysfs → Type 0
Grants k = (f : ℕ → ℕ) (sz nr : ℕ) → k.grant f sz nr ≡ nr

abbrev pub AllDistinct : List ℕ → Type 0
AllDistinct [] = Unit
AllDistinct (x ∷ xs) = All (λ y. y ≢ x) xs × AllDistinct xs

-- The same files with other numbers of pages.
abbrev pub with_pages : Sysfs → (ℕ → ℕ) → Sysfs
with_pages k f = record k { pages = f }

All-zip : (P : ℕ → Type 0) (xs ys : List ℕ) → All P xs → All (λ (p : ℕ × ℕ). P p.0) (zip xs ys)
All-zip P [] ys h = tt
All-zip P (x ∷ xs) [] h = tt
All-zip P (x ∷ xs) (y ∷ ys) h = (h.0, All-zip P xs ys h.1)

all_supported : (xs : List ℕ) → All (λ x. supported x xs ≡ true) xs
all_supported [] = tt
all_supported (x ∷ xs) =
    (rw (eq→== x x refl) refl, All-mono xs (λ y h. ground (arith, h)) (all_supported xs))

module _ (k : Sysfs) (grants : Grants k) where
  raise_granted :
      (ps : List (ℕ × ℕ)) (f : ℕ → ℕ)
      → All (λ p. supported p.0 k.sizes ≡ true) ps
      → (g : ℕ → ℕ) × (raise_all ps (with_pages k f) ≡ some (with_pages k g))
  unfolding raise_all raise_one set_htlb_pages_node get_htlb_pages_node
  raise_granted [] f h = (f, refl)
  raise_granted (p ∷ ps) f h = elim (Bool-cases (ltb (f p.0) p.1)) [
    | inl more ↦
        rw (h.0, more, grants f p.0 p.1) (raise_granted ps (λ x. if x == p.0 then p.1 else f x) h.1)
    | inr enough ↦ rw (h.0, enough) (raise_granted ps f h.1)
  ]

set_all-append :
    (ps : List (ℕ × ℕ)) (p : ℕ × ℕ) (k : Sysfs)
    → set_all (ps ++ p ∷ []) k ≡ (set_all ps k >>= λ k1. set_htlb_pages_node p.0 p.1 k1)
unfolding set_all set_htlb_pages_node
set_all-append [] p k = elim (Bool-cases (supported p.0 k.sizes)) [
  | inl e ↦ rw e refl
  | inr e ↦ rw e refl
]
set_all-append (q ∷ ps) p k = elim (Bool-cases (supported q.0 k.sizes)) [
  | inl e ↦ rw e (
      set_all-append ps p
        (record k { pages = λ x. if x == q.0 then k.grant k.pages q.0 q.1 else k.pages x }))
  | inr e ↦ rw e refl
]

abbrev AllPaired : List (ℕ × ℕ) → Type 0
AllPaired [] = Unit
AllPaired (p ∷ ps) = All (λ q. q.0 ≢ p.0) ps × AllPaired ps

zip-AllPaired : (xs ys : List ℕ) → AllDistinct xs → AllPaired (zip xs ys)
zip-AllPaired [] ys h = tt
zip-AllPaired (x ∷ xs) [] h = tt
zip-AllPaired (x ∷ xs) (y ∷ ys) h = (All-zip (λ z. z ≢ x) xs ys h.0, zip-AllPaired xs ys h.1)

abbrev pub AllReserved : List (ℕ × ℕ) → (ℕ → ℕ) → Type 0
AllReserved ps g = All (λ (p : ℕ × ℕ). g p.0 ≡ p.1) ps

-- Another size leaves what was reserved.
set_other :
    (g : ℕ → ℕ) (p : ℕ × ℕ) (ps : List (ℕ × ℕ))
    → All (λ q. q.0 ≢ p.0) ps
    → AllReserved ps g
    → AllReserved ps (λ x. if x == p.0 then p.1 else g x)
set_other g p [] h k = tt
set_other g p (q ∷ ps) h k = (rw (ne→== q.0 p.0 h.0) k.0, set_other g p ps h.1 k.1)

module _ (k : Sysfs) (grants : Grants k) where
  set_all_granted :
      (ps : List (ℕ × ℕ)) (f : ℕ → ℕ)
      → All (λ p. supported p.0 k.sizes ≡ true) ps
      → AllPaired ps
      → (g : ℕ → ℕ) × (set_all (rev ps) (with_pages k f) ≡ some (with_pages k g)) × AllReserved ps g
  unfolding set_all set_htlb_pages_node
  set_all_granted [] f h d = (f, refl, tt)
  set_all_granted (p ∷ ps) f h d =
      let (g, done, reserved) = set_all_granted ps f h.1 d.1 in
      (
        (λ x. if x == p.0 then p.1 else g x),
        set_all-append (rev ps) p (with_pages k f) ∙ rw (done, h.0, grants g p.0 p.1) refl,
        (rw (eq→== p.0 p.0 refl) refl, set_other g p ps d.0 reserved),
      )

no_difference : (ps : List (ℕ × ℕ)) (k : Sysfs) → AllReserved ps k.pages → some_differs ps k ≡ false
no_difference [] k h = refl
no_difference (p ∷ ps) k h = rw (h.0, eq→== p.1 p.1 refl) (no_difference ps k h.1)

-- For supported sizes that are different from one another and a kernel that grants every number of
-- pages that is written: reserve_pages does not panic, changes nothing but the numbers of pages,
-- each size in the request has the pages asked for, and the answer is the error.
pub reserve_pages-AllReserved :
    (k : Sysfs) (req : List ℕ)
    → Grants k
    → AllDistinct k.sizes
    → (g : ℕ → ℕ) × (reserve_pages req k ≡ some (with_pages k g, false))
      × AllReserved (zip k.sizes req) g
unfolding reserve_pages
reserve_pages-AllReserved k req grants distinct =
    let known = All-zip (λ x. supported x k.sizes ≡ true) k.sizes req (all_supported k.sizes) in
    let (f, raised) = raise_granted k grants (zip k.sizes req) k.pages known in
    let (g, done, reserved) =
      set_all_granted k grants (zip k.sizes req) f known (zip-AllPaired k.sizes req distinct) in
    (g, rw (raised, done, no_difference (zip k.sizes req) (with_pages k g) reserved) refl, reserved)
