-- ===== src/Insert.antt =====
-- src/skl_ins.c: a node is given its array of pointers, then linked behind its predecessor on each
-- of its levels. A step that returns the status, the list and the heap is `none` where the C code
-- would read or write out of bounds. A failed allocation takes the `return` of `MEM_BC_X_RETV`, as
-- with CHECK_MEMO_WARN_ON_ERROR; with CHECK_MEMO_EXIT_ON_ERROR the process ends at that point.
pub mod Nodes
pub mod Links
pub mod Inserted
pub mod Plain
pub mod Public
use myskl.Prelude.{
  ℕ, zero, suc, ◌+◌, ◌%◌, ◌^◌, Bool, true, false, not, ◌&&◌, Option, some, ltb, ◌==◌, if◌then◌else◌,
  ◌>>=◌,
}
use myskl.Heap.{Heap, update, load, store, alloc}
use myskl.SkipList.{
  Status, mem_exhausted, status_ok, error, SkipList, cp_mode, ad_mode, has_mode, walk, rounds,
  Outcome, guarded, null,
}
use myskl.Gen.{gen_level}

module _ {D : Type 0} where
  -- `X_ALLOC ( dim * sizeof( MySKL_n ), x->next )`: whether `x->next` is not NULL, and the heap.
  unfoldable pub alloc_next : Heap D → ℕ → ℕ → Bool × Heap D
  unfolding alloc
  alloc_next h x dim =
      let cleared : Heap D = record h { cap = update h.cap x 0 } in
      let (given, h') = alloc cleared in
      if ltb 0 dim
      then (if given then (true, record h' { cap = update h'.cap x dim }) else (false, h'))
      else (false, cleared)

  -- `for ( ; i < lev; i++ ) x->next[ i ] = NIL( l );`, the `n` rounds from `i` on
  unfoldable pub nil_next : SkipList D → ℕ → ℕ → ℕ → Heap D → Option (Heap D)
  unfolding store
  nil_next l x zero i h = some h
  nil_next l x (suc n) i h = do h' ← store h x i l.header; nil_next l x n (i + 1) h'

  -- `newNode`: whether there is a node, and the heap.
  unfoldable pub new_node : SkipList D → Heap D → ℕ → ℕ → Option (Bool × Heap D)
  unfolding alloc_next nil_next
  new_node l h x lev =
      let (given, h1) = alloc_next h x lev in
      if given
      then (do h2 ← nil_next l x lev 0 (record h1 { sz = update h1.sz x lev }); some (true, h2))
      else some (false, h1)

  -- `x->next[ i ] = p->next[ i ]; p->next[ i ] = x;`
  unfoldable pub link : ℕ → ℕ → ℕ → Heap D → Option (Heap D)
  unfolding load store
  link x i p h = do q ← load h p i; h' ← store h x i q; store h' p i x

  -- The end of an insertion: the tail, the number of nodes (a `uint`), and the status.
  unfoldable pub count_in : SkipList D → Heap D → ℕ → Option (Outcome D)
  unfolding load
  count_in l h x = do
    first ← load h x 0
    let tail = if first == l.header then x else l.tail
    some (status_ok, record l { tail = tail; nodenum = (l.nodenum + 1) % 2 ^ 32 }, h)

  -- The loop of `_insertPlain` from level `i` down: walk, then link on the levels of the new node.
  unfoldable pub plain_loop : SkipList D → ℕ → ℕ → ℕ → ℕ → Heap D → Option (Heap D)
  unfolding walk link
  plain_loop l nnode lev zero x h = some h
  plain_loop l nnode lev (suc i) x h = do
    x' ← walk l h nnode i (rounds l) x
    h' ← (if ltb i lev then link nnode i x' h else some h)
    plain_loop l nnode lev i x' h'

  -- The level of a new node: drawn, or as given in a copy.
  unfoldable pub level_for : SkipList D → ℕ → ℕ → ℕ × SkipList D
  unfolding gen_level
  level_for l lev options = if has_mode options cp_mode then (lev, l) else gen_level l

  -- `if ( newLevel > l->curlevel ) l->curlevel = newLevel;`
  unfoldable pub raise : SkipList D → ℕ → SkipList D
  raise l lev = if ltb l.curlevel lev then record l { curlevel = lev } else l

  -- `_insertPlain`
  unfoldable pub insert_plain : SkipList D → Heap D → ℕ → ℕ → ℕ → Option (Outcome D)
  insert_plain l h newnode given_level options =
      let (lev, l1) = level_for l given_level options in
      if not (has_mode options cp_mode) && lev == 0 then some (mem_exhausted, l1, h) else do
        (made, h1) ← new_node l1 h newnode lev
        elim made [
          | true ↦ do
            let l2 = raise l1 lev
            h2 ← plain_loop l2 newnode lev l2.curlevel l2.header h1
            count_in l2 h2 newnode
          | false ↦ some (mem_exhausted, l1, h1)
        ]

  -- `MySKLinsertAD`
  unfoldable pub insert_ad :
      Option (SkipList D) → Heap D → ℕ → Option (Status × Option (SkipList D) × Heap D)
  insert_ad ml h newnode =
      guarded ml h
        (λ l. if newnode == null then some (error, l, h) else insert_plain l h newnode 0 ad_mode)
