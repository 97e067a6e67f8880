-- ===== src/Upsert.antt =====
-- `_insertI` of src/skl_ins.c and the operations on it: no insertion of a duplicate, and the update
-- of nodes that are there. The places to link are collected first, in the array `update`.
pub mod Links
pub mod Added
pub mod Public
pub mod Updated
pub mod Fault
use myskl.Prelude.{
  ℕ, zero, suc, ◌+◌, true, false, not, ◌&&◌, ◌||◌, Option, none, some, ◌==◌, if◌then◌else◌, ◌>>=◌,
  ◌-◌,
}
use myskl.Heap.{Heap, update, load}
use myskl.SkipList.{
  Status, mem_exhausted, duplicate_key, status_ok, error, SkipList, nd_mode, up_one_mode,
  up_all_mode, cp_mode, has_mode, eq, Outcome, guarded, null, rounds, descend, matches,
}
use myskl.Insert.{new_node, link, count_in, level_for, raise}

-- `for ( i = curlevel; i < newLevel; i++ ) update[ i ] = NIL ( l );`, the `n` rounds from `i` on
unfoldable pub nil_update : ℕ → ℕ → ℕ → (ℕ → Option ℕ) → ℕ → Option ℕ
nil_update header zero i upd = upd
nil_update header (suc n) i upd = nil_update header n (i + 1) (update upd i (some header))

module _ {D : Type 0} where
  -- `( *updfunc )( n, newnode )`
  unfoldable pub update_val : (D → D → D) → Heap D → ℕ → ℕ → Option (Heap D)
  update_val updfunc h n newnode = do
    old ← h.val n
    new ← h.val newnode
    some (record h { val = update h.val n (some (updfunc old new)) })

  -- The `do … while` loop of `updateNodeData`.
  unfoldable pub update_node_data :
      SkipList D → (D → D → D) → ℕ → ℕ → ℕ → Heap D → ℕ → Option (Heap D)
  update_node_data l updfunc newnode options zero h n = none
  update_node_data l updfunc newnode options (suc fuel) h n = do
    h' ← update_val updfunc h n newnode
    elim (has_mode options up_one_mode) [
      | true ↦ some h'
      | false ↦ do
        n' ← load h' n 0
        more ← (if n' == l.header then some false else load h' n' 0 >>= λ y. eq l h' y newnode)
        elim more [ true ↦ update_node_data l updfunc newnode options fuel h' n' | false ↦ some h' ]
    ]

  -- The loop that links `x` behind `upd[ i ]`, the `n` rounds from level `i` on.
  unfoldable pub link_loop : ℕ → (ℕ → Option ℕ) → ℕ → ℕ → Heap D → Option (Heap D)
  link_loop x upd zero i h = some h
  link_loop x upd (suc n) i h = do p ← upd i; h' ← link x i p h; link_loop x upd n (i + 1) h'

  -- `addNodeAndUpdateLinks`
  unfoldable pub add_node_and_update_links :
      SkipList D → (ℕ → Option ℕ) → Heap D → ℕ → ℕ → ℕ → Option (Outcome D)
  add_node_and_update_links l upd h newnode given_level options =
      let (lev, l1) = level_for l given_level options in
      if not (has_mode options cp_mode) && lev == 0 then some (mem_exhausted, l1, h) else do
        (made, h1) ← new_node l1 h newnode lev
        elim made [
          | true ↦ do
            h2 ← link_loop newnode (nil_update l.header (lev - l.curlevel) l.curlevel upd) lev 0 h1
            count_in (raise l1 lev) h2 newnode
          | false ↦ some (mem_exhausted, l1, h1)
        ]

  -- `_insertI`; `updfunc` is called only in the two modes of an update.
  unfoldable pub insert_i : SkipList D → Heap D → ℕ → (D → D → D) → ℕ → ℕ → Option (Outcome D)
  insert_i l h newnode updfunc given_level options = do
    (p, upd) ← descend l h newnode l.curlevel l.header (λ _. none)
    x ← load h p 0
    same ← matches l h x newnode
    if same && has_mode options nd_mode
        then some (duplicate_key, l, h)
        else if same && (has_mode options up_all_mode || has_mode options up_one_mode)
        then (update_node_data l updfunc newnode options (rounds l) h x >>= λ h'.
            some (status_ok, l, h'))
        else add_node_and_update_links l upd h newnode given_level options

  -- `MySKLinsertND`
  unfoldable pub insert_nd :
      Option (SkipList D) → Heap D → ℕ → Option (Status × Option (SkipList D) × Heap D)
  insert_nd ml h newnode = guarded ml h (λ l.
      if newnode == null
      then some (error, l, h)
      else insert_i l h newnode (λ old new. old) 0 nd_mode)

  -- `MySKLinsertUPD`; `updfunc` may be NULL
  unfoldable pub insert_upd :
      Option (SkipList D)
      → Heap D
      → ℕ
      → Option (D → D → D)
      → Option (Status × Option (SkipList D) × Heap D)
  insert_upd ml h newnode mupd = guarded ml h (λ l. elim mupd [
    | none ↦ some (error, l, h)
    | some updfunc ↦
        if newnode == null then some (error, l, h) else insert_i l h newnode updfunc 0 up_one_mode
  ])

  -- `MySKLinsertUPD_ALL`
  unfoldable pub insert_upd_all :
      Option (SkipList D)
      → Heap D
      → ℕ
      → Option (D → D → D)
      → Option (Status × Option (SkipList D) × Heap D)
  insert_upd_all ml h newnode mupd = guarded ml h (λ l. elim mupd [
    | none ↦ some (error, l, h)
    | some updfunc ↦
        if newnode == null then some (error, l, h) else insert_i l h newnode updfunc 0 up_all_mode
  ])
