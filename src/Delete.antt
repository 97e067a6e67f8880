-- ===== src/Delete.antt =====
-- src/skl_del.c: the first node that compares equal is unlinked from each of its levels and
-- destroyed.
pub mod Removed
pub mod Unlinks
pub mod Level
pub mod Node
pub mod Public
use myskl.Prelude.{
  ℕ, zero, suc, ◌+◌, ◌-◌, ◌%◌, ◌^◌, Bool, true, false, not, ◌&&◌, Option, none, some, ltb, ◌==◌,
  if◌then◌else◌, ◌>>=◌,
}
use myskl.Heap.{Heap, update, load, store, free_next}
use myskl.SkipList.{
  Status, node_not_deleted, key_not_found, status_ok, SkipList, Outcome, guarded, descend, matches,
}

-- `x - 1` on a `uint`
unfoldable pub uint_dec : ℕ → ℕ
uint_dec x = (x + 2 ^ 32 - 1) % 2 ^ 32

module _ {D : Type 0} where
  -- The loop that takes `x` out of its levels, the `n` rounds from level `i` on.
  unfoldable pub unlink_loop : ℕ → (ℕ → Option ℕ) → ℕ → ℕ → Heap D → Option (Heap D)
  unlink_loop x upd zero i h = some h
  unlink_loop x upd (suc n) i h = do
    p ← upd i
    q ← load h p i
    elim (q == x) [
      | true ↦ do r ← load h x i; h' ← store h p i r; unlink_loop x upd n (i + 1) h'
      | false ↦ some h
    ]

  -- `destroy_node`: the array is freed, and the user's destroyer, if there is one, releases the
  -- structure around the node.
  unfoldable pub destroy_node : SkipList D → Heap D → ℕ → Heap D
  destroy_node l h n =
      let h' = if ltb 0 (h.cap n) then free_next h n else h in
      if l.dst then record h' { val = update h'.val n none } else h'

  -- The `while` loop of `adjustCurLevel`, from its local `curlevel` down: the list's level.
  unfoldable pub adjust_loop : SkipList D → Heap D → ℕ → ℕ → Option ℕ
  adjust_loop l h zero level = some level
  adjust_loop l h (suc k) level = do
    q ← load h l.header (suc k)
    elim (q == l.header) [ true ↦ adjust_loop l h k (uint_dec level) | false ↦ some level ]

  unfoldable pub adjust_cur_level : SkipList D → Heap D → Option (SkipList D)
  adjust_cur_level l h = do
    level ← adjust_loop l h (uint_dec l.curlevel) l.curlevel
    some (record l { curlevel = level })

  -- `dstdatafunc == NULL`, or its answer for the data of node `x`
  unfoldable pub data_destroyed : Option (D → Bool) → Heap D → ℕ → Option Bool
  data_destroyed none h x = some true
  data_destroyed (some dstdatafunc) h x = h.val x >>= λ v. some (dstdatafunc v)

  -- From the unlinking on: node `x` was found, and `upd` holds its predecessors.
  unfoldable pub remove_node : SkipList D → Heap D → ℕ → (ℕ → Option ℕ) → Option (Outcome D)
  remove_node l h x upd = do
    h1 ← unlink_loop x upd l.curlevel 0 h
    q ← load h1 x 0
    p ← upd 0
    let l1 : SkipList D = record l { tail = if q == l.header then p else l.tail }
    let h2 = destroy_node l1 h1 x
    l2 ← adjust_cur_level l1 h2
    some (status_ok, record l2 { nodenum = uint_dec l2.nodenum }, h2)

  -- `deleteI`
  unfoldable pub delete_i : SkipList D → Heap D → ℕ → Option (D → Bool) → Bool → Option (Outcome D)
  delete_i l h nodetodel dstdatafunc force = do
    (p, upd) ← descend l h nodetodel l.curlevel l.header (λ _. none)
    x ← load h p 0
    same ← matches l h x nodetodel
    elim same [
      | true ↦ do
        destroyed ← data_destroyed dstdatafunc h x
        if not destroyed && not force then some (node_not_deleted, l, h) else remove_node l h x upd
      | false ↦ some (key_not_found, l, h)
    ]

  -- The body of `MySKLdeleteNF` and `MySKLdeleteAF`, which differ in `force`.
  unfoldable pub delete_with :
      Bool
      → Option (SkipList D)
      → Heap D
      → ℕ
      → Option (D → Bool)
      → Option (Status × Option (SkipList D) × Heap D)
  delete_with force ml h nodetodel dstdatafunc = guarded ml h (λ l.
      if l.nodenum == 0
      then some (key_not_found, l, h)
      else delete_i l h nodetodel dstdatafunc force)

  abbrev pub delete_nf :
      Option (SkipList D)
      → Heap D
      → ℕ
      → Option (D → Bool)
      → Option (Status × Option (SkipList D) × Heap D)
  delete_nf = delete_with false

  abbrev pub delete_af :
      Option (SkipList D)
      → Heap D
      → ℕ
      → Option (D → Bool)
      → Option (Status × Option (SkipList D) × Heap D)
  delete_af = delete_with true
