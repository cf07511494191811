-- ===== src/Dlmalloc/Treebin.antt =====
-- Operations on trees (dlmalloc/dlmalloc.c, "Operations on trees"), and the relays that choose
-- between small and large bins.
pub mod Alone
use mosalloc_rs.Base.{
  ℕ, zero, suc, ◌+◌, ◌*◌, ◌/◌, ◌%◌, ◌^◌, Bool, true, false, ◌&&◌, if◌then◌else◌, ◌==◌, shl64, shr,
}
use mosalloc_rs.Dlmalloc.State.{
  State, Cmd, out_of_fuel, ◌>>=◌, ◌>>◌, pure, get, modify, skip, load, store, error_action, fd_of,
  bk_of, child_of, parent_of, index_of, treebin_at,
}
use mosalloc_rs.Dlmalloc.Chunk.{ok_address, chunksize}
use mosalloc_rs.Dlmalloc.Index.{
  compute_tree_index, leftshift_for_tree_index, map_is_marked, mark_map, clear_map, is_small,
}
use mosalloc_rs.Dlmalloc.Smallbin.{insert_small_chunk, unlink_small_chunk}

abbrev pub leftmost_child : State → ℕ → ℕ
leftmost_child s t =
    if s.mem (child_of t 0) == 0 then s.mem (child_of t 1) else s.mem (child_of t 0)

-- X->fd = X->bk = X
abbrev pub self_link : ℕ → Cmd (Unit {0})
self_link x = do store (bk_of x) x; store (fd_of x) x

-- Chains `x` behind the tree node `t` of the same size.
abbrev pub chain_large_chunk : ℕ → ℕ → Cmd (Unit {0})
chain_large_chunk x t = do
  s ← get
  let f = s.mem (fd_of t)
  if ok_address s t && ok_address s f
      then (do
        store (bk_of f) x
        store (fd_of t) x
        store (fd_of x) f
        store (bk_of x) t
        store (parent_of x) 0)
      else error_action

-- The `for (;;)` of insert_large_chunk, from the node `t` with the bits `k` of the size left.
insert_large_loop : ℕ → ℕ → ℕ → ℕ → ℕ → Cmd (Unit {0})
insert_large_loop zero x n t k = λ _. out_of_fuel
insert_large_loop (suc fuel) x n t k = do
  s ← get
  let c = child_of t (shr k 63 % 2)
  if chunksize s t == n
      then chain_large_chunk x t
      else if s.mem c == 0
      then (if ok_address s c
          then (do store c x; store (parent_of x) t; self_link x)
          else error_action)
      else insert_large_loop fuel x n (s.mem c) (shl64 k 1)

unfoldable pub insert_large_chunk : ℕ → ℕ → Cmd (Unit {0})
unfolding insert_large_loop
insert_large_chunk x n = do
  s ← get
  let i = compute_tree_index n
  let h = treebin_at s i
  store (index_of x) i
  store (child_of x 1) 0
  store (child_of x 0) 0
  if map_is_marked s.treemap i
      then (do t ← load h; insert_large_loop s.rounds x n t (shl64 n (leftshift_for_tree_index i)))
      else (do
        modify (λ s'. record s' { treemap = mark_map s'.treemap i })
        store h x
        store (parent_of x) h
        self_link x)

-- The descent to a leaf: the node reached, and the address of the link to it.
find_leaf : ℕ → ℕ → ℕ → Cmd (ℕ × ℕ)
find_leaf zero r rp = λ _. out_of_fuel
find_leaf (suc fuel) r rp = do
  s ← get
  if s.mem (child_of r 1) == 0
      then (if s.mem (child_of r 0) == 0
          then pure (r, rp)
          else find_leaf fuel (s.mem (child_of r 0)) (child_of r 0))
      else find_leaf fuel (s.mem (child_of r 1)) (child_of r 1)

-- `*RP = 0` after the descent; the leaf replaces the node that is unlinked.
detach_leaf : ℕ × ℕ → Cmd ℕ
detach_leaf (r, rp) = do s ← get; if ok_address s rp then (do store rp 0; pure r) else error_action

-- The replacement R of the node `x`: its `bk` in a chain, else a leaf below it, else null.
replacement : ℕ → Cmd ℕ
unfolding find_leaf detach_leaf
replacement x = do
  s ← get
  let f = s.mem (fd_of x)
  let r = s.mem (bk_of x)
  if r == x
      then (if s.mem (child_of x 1) == 0
          then (if s.mem (child_of x 0) == 0
              then pure 0
              else (do detach_leaf (← find_leaf s.rounds (s.mem (child_of x 0)) (child_of x 0))))
          else (do detach_leaf (← find_leaf s.rounds (s.mem (child_of x 1)) (child_of x 1))))
      else if ok_address s f && (s.mem (bk_of f) == x && s.mem (fd_of r) == x)
      then (do store (bk_of f) r; store (fd_of r) f; pure r)
      else error_action

-- The child `i` of `x` becomes that of `r`.
adopt_child : ℕ → ℕ → ℕ → Cmd (Unit {0})
adopt_child x r i = do
  s ← get
  let c = s.mem (child_of x i)
  if c == 0
      then skip
      else if ok_address s c
      then (do store (child_of r i) c; store (parent_of c) r)
      else error_action

-- `if (R != 0)` …: `r` takes the place of `x` below its parent `xp`.
relink_children : ℕ → ℕ → ℕ → Cmd (Unit {0})
unfolding adopt_child
relink_children x xp r = do
  s ← get
  if r == 0
      then skip
      else if ok_address s r
      then (do store (parent_of r) xp; adopt_child x r 0; adopt_child x r 1)
      else error_action

-- The parent's link to `x`, or the bin's, is set to `r`.
relink_parent : ℕ → ℕ → ℕ → Cmd (Unit {0})
relink_parent x xp r = do
  s ← get
  let i = s.mem (index_of x)
  let h = treebin_at s i
  if s.mem h == x
      then (do
        store h r
        if r == 0 then modify (λ s'. record s' { treemap = clear_map s'.treemap i }) else skip)
      else if ok_address s xp
      then (if s.mem (child_of xp 0) == x then store (child_of xp 0) r else store (child_of xp 1) r)
      else error_action

unfoldable pub unlink_large_chunk : ℕ → Cmd (Unit {0})
unfolding replacement relink_parent relink_children
unlink_large_chunk x = do
  xp ← load (parent_of x)
  r ← replacement x
  if xp == 0 then skip else (do relink_parent x xp r; relink_children x xp r)

unfoldable pub insert_chunk : ℕ → ℕ → Cmd (Unit {0})
unfolding insert_small_chunk insert_large_chunk
insert_chunk p n = if is_small n then insert_small_chunk p n else insert_large_chunk p n

unfoldable pub unlink_chunk : ℕ → ℕ → Cmd (Unit {0})
unfolding unlink_small_chunk unlink_large_chunk
unlink_chunk p n = if is_small n then unlink_small_chunk p n else unlink_large_chunk p
