-- ===== src/Dlmalloc/Smallbin/Remove.antt =====
-- unlink_small_chunk takes a chunk out of the middle of its bin.
use mosalloc_rs.Base.{
  ℕ, ◌≡◌, ◌≢◌, refl, List, [], ◌∷◌, ◌++◌, arith, ◌==◌, true, eq→==, ne→==, ◌&&◌, ◌||◌,
}
use mosalloc_rs.Dlmalloc.State.{State, Mem, fd_of, bk_of, smallbin_at}
use mosalloc_rs.Dlmalloc.State.Returns.{Returns, returns}
use mosalloc_rs.Dlmalloc.Chunk.{ok_address}
use mosalloc_rs.Dlmalloc.Index.{small_index}
use mosalloc_rs.Dlmalloc.Smallbin.{unlink_small_chunk}
use mosalloc_rs.Dlmalloc.Smallbin.Chain.{
  Apart, IsChain, last_of, first_of_chain, last_of-All, first-All, All-append_left,
  All-append_right,
}
use mosalloc_rs.Dlmalloc.Smallbin.Unlink.{
  IsChain-join, bk-first, fd-last, last-ne-first, All-remove, Distinct-remove,
}
use mosalloc_rs.Dlmalloc.Smallbin.Bin.{IsBin, EditsBin, Checked, clear_self, marks_of_clear}

-- The neighbours of `p` in the ring of the bin at `b` pass the checks of unlink_small_chunk.
module _ (s : State) (b p : ℕ) where
  check_first :
      (zs : List ℕ)
      → Checked s zs
      → s.mem (bk_of (first_of_chain zs b)) ≡ p
      → (first_of_chain zs b == b
          || (ok_address s (first_of_chain zs b) && s.mem (bk_of (first_of_chain zs b)) == p))
        ≡ true
  check_first [] ok e = rw (eq→== b b refl) refl
  check_first (y ∷ r) ok e = rw (ok.0, e, eq→== p p refl) (ground arith)

  check_last :
      (y : ℕ) (ys : List ℕ)
      → Checked s (y ∷ ys)
      → s.mem (fd_of (last_of y ys)) ≡ p
      → (last_of y ys == b || (ok_address s (last_of y ys) && s.mem (fd_of (last_of y ys)) == p))
        ≡ true
  check_last y ys ok e =
      rw (last_of-All (λ q. ok_address s q ≡ true) y ys ok.0 ok.1, e, eq→== p p refl) (ground arith)

IsChain-behind :
    (m : Mem) (p z a : ℕ) (ys zs : List ℕ) → IsChain m a (ys ++ p ∷ zs) z → IsChain m p zs z
IsChain-behind m p z a [] zs h = h.2
IsChain-behind m p z a (y ∷ ys) zs h = IsChain-behind m p z y ys zs h.2

-- Unlinking a chunk from any place of the list that its smallbin holds, where the other chunks
-- pass the address check, returns with the bin holding the other chunks in their order; it is
-- unmarked if none is left. Other marks, the words that are no links of the bin, and all other
-- fields of the state are unchanged.
pub unlink_small_chunk-remove :
    (s : State) (p n : ℕ) (ys zs : List ℕ)
    → IsBin s (small_index n) (ys ++ p ∷ zs)
    → Checked s (ys ++ zs)
    → Returns
        (λ _ s'.
          IsBin s' (small_index n) (ys ++ zs)
          × EditsBin s (small_index n) (smallbin_at s (small_index n) ∷ ys ++ zs) s')
        (unlink_small_chunk p n s)
unfolding unlink_small_chunk
unlink_small_chunk-remove s p n [] [] bin ok =
    let b = smallbin_at s (small_index n) in
    rw (bin.chain.2.0, bin.chain.1, eq→== b b refl)
      (returns (
        record { marked = clear_self s.smallmap (small_index n); chain = tt; apart = (tt, tt) },
        record {
          rest = refl;
          marks = marks_of_clear s.smallmap (small_index n);
          words = λ a h. refl;
        },
      ))
unlink_small_chunk-remove s p n [] (z ∷ r) bin ok =
    let b = smallbin_at s (small_index n) in
    let joined =
      IsChain-join s.mem p b b [] (z ∷ r) bin.chain bin.apart.0 bin.apart.0 bin.apart.1
        (omega arith) in
    rw
      (
        joined.0,
        joined.1,
        check_first s b p (z ∷ r) ok (bk-first s.mem p b p (z ∷ r) bin.chain.2),
        ne→== b z (omega arith),
        eq→== b b refl,
      )
      (returns (
        record { marked = bin.marked; chain = joined.2; apart = (bin.apart.0.1, bin.apart.1.1) },
        record { rest = refl; marks = λ j ne. refl; words = λ a h. ground arith },
      ))
unlink_small_chunk-remove s p n (y ∷ ys) zs bin ok =
    let b = smallbin_at s (small_index n) in
    let joined =
      IsChain-join s.mem p b b (y ∷ ys) zs bin.chain bin.apart.0 bin.apart.0 bin.apart.1
        (omega arith) in
    let f = first_of_chain zs b in
    let l = last_of y ys in
    rw
      (
        joined.0,
        joined.1,
        check_first s b p zs (All-append_right (λ q. ok_address s q ≡ true) (y ∷ ys) zs ok)
            (bk-first s.mem p b p zs (IsChain-behind s.mem p b b (y ∷ ys) zs bin.chain)),
        ne→== l f (
            last-ne-first s.mem p b y ys zs bin.apart.1.0 bin.apart.0.1 bin.apart.1.1
              (omega arith)),
        check_last s b p y ys (All-append_left (λ q. ok_address s q ≡ true) (y ∷ ys) zs ok)
            (fd-last s.mem p b b (y ∷ ys) zs bin.chain),
      )
      (returns (
        record {
          marked = bin.marked;
          chain = joined.2;
          apart = (
            All-remove (Apart b) p (y ∷ ys) zs bin.apart.0,
            Distinct-remove p (y ∷ ys) zs bin.apart.1,
          );
        },
        record {
          rest = refl;
          marks = λ j ne. refl;
          words = λ a h.
              let Off = λ (q : ℕ). (a ≢ fd_of q) × (a ≢ bk_of q) in
              let hf : Off f = first-All Off zs b (All-append_right Off (y ∷ ys) zs h.1) h.0 in
              let hl : Off l = last_of-All Off y ys h.1.0 (All-append_left Off ys zs h.1.1) in
              ground arith;
        },
      ))
