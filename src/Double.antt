-- ===== src/Double.antt =====
-- The code of a build with double links (MYSKL_DOUBLE_LL_TYPE, include/private/skl_defs.h): the
-- statements in IFDOUBLE of src/skl_ins.c and src/skl_del.c, and the iterators of src/skl_iter.c that
-- go both ways.
pub mod Links
pub mod Loops
pub mod Cursor
pub mod Moves
use myskl.Prelude.{
  ℕ, ◌-◌, Bool, Option, none, some, ltb, ◌==◌, not, ◌&&◌, ◌||◌, leb, if◌then◌else◌, ◌>>=◌, zero,
  suc, ◌+◌, true, false,
}
use myskl.Heap.{Heap, load, store, update_entry}
use myskl.SkipList.{SkipList, null}
use myskl.Insert.{link}
use myskl.Iter.{iter_magic}

-- The heap with the array `prev` of each node, which has as many entries as the array `next`.
pub record DoubleHeap (D : Type 0) : Type 0 where
  pub heap : Heap D
  pub prev : ℕ → ℕ → ℕ

-- An array that an iterator points at: `next` or `prev` of a node
pub data Side : Type 0 where
  nexts prevs : ℕ → Side

-- `struct MySKLiterator`; the pointers are none while they have not been set.
pub record DoubleIter : Type 0 where
  pub magic : ℕ
  pub next : Option Side
  pub prev : Option Side
  pub list : ℕ
  pub term : ℕ
  pub prevlev : ℕ

-- `someSanityChecks`
unfoldable pub is_sane : DoubleIter → ℕ → Bool
is_sane iter lev = (iter.magic == iter_magic) && leb lev iter.prevlev && leb 1 lev

module _ {D : Type 0} where
  -- `a->prev[ i ] = b`
  unfoldable pub store_prev : DoubleHeap D → ℕ → ℕ → ℕ → Option (DoubleHeap D)
  store_prev d a i b =
      if ltb i (d.heap.cap a) then some (record d { prev = update_entry d.prev a i b }) else none

  -- A level of an insertion: `x` is linked behind `p`.
  unfoldable pub link_double : ℕ → ℕ → ℕ → DoubleHeap D → Option (DoubleHeap D)
  link_double x i p d = do
    h ← link x i p d.heap
    q ← load h x i
    d' ← store_prev (record d { heap = h }) q i x
    store_prev d' x i p

  -- A level of a deletion: `x` behind `p` is unlinked.
  unfoldable pub unlink_double : ℕ → ℕ → ℕ → DoubleHeap D → Option (DoubleHeap D)
  unlink_double x i p d = do
    q ← load d.heap x i
    h ← store d.heap p i q
    store_prev (record d { heap = h }) q i p

  -- The loop over the levels in `addNodeAndUpdateLinks`, `n` rounds from level `i` on
  unfoldable pub link_double_loop :
      ℕ → (ℕ → Option ℕ) → ℕ → ℕ → DoubleHeap D → Option (DoubleHeap D)
  link_double_loop x upd zero i d = some d
  link_double_loop x upd (suc n) i d = do
    p ← upd i
    d' ← link_double x i p d
    link_double_loop x upd n (i + 1) d'

  -- The loop over the levels in `deleteI`
  unfoldable pub unlink_double_loop :
      ℕ → (ℕ → Option ℕ) → ℕ → ℕ → DoubleHeap D → Option (DoubleHeap D)
  unlink_double_loop x upd zero i d = some d
  unlink_double_loop x upd (suc n) i d = do
    p ← upd i
    q ← load d.heap p i
    elim (q == x) [
      | true ↦ do d' ← unlink_double x i p d; unlink_double_loop x upd n (i + 1) d'
      | false ↦ some d
    ]

  -- Entry `i` of an array
  unfoldable pub side_entry : DoubleHeap D → Side → ℕ → Option ℕ
  side_entry d (nexts a) i = load d.heap a i
  side_entry d (prevs a) i = if ltb i (d.heap.cap a) then some (d.prev a i) else none

  -- `setIterator`
  unfoldable pub set_double_iterator : SkipList D → DoubleHeap D → ℕ → ℕ → DoubleIter
  set_double_iterator l d n term =
      let start = if n == null then l.header else n in
      record {
        magic = iter_magic;
        next = some (nexts start);
        prev = some (prevs start);
        list = l.header;
        term = term;
        prevlev = d.heap.sz start;
      }

  -- `getNext` from an array
  unfoldable pub get_next_in : DoubleHeap D → DoubleIter → ℕ → Side → Option (ℕ × DoubleIter)
  get_next_in d iter lev side = do
    node ← side_entry d side (lev - 1)
    if (node == iter.list) || (not (iter.term == null) && node == iter.term)
        then some (null, iter)
        else some (
          node,
          record iter { prev = some side; prevlev = d.heap.sz node; next = some (nexts node) },
        )

  -- `getNext`
  unfoldable pub get_next_double : DoubleHeap D → DoubleIter → ℕ → Option (ℕ × DoubleIter)
  get_next_double d iter lev = elim iter.next [
    | none ↦ some (null, iter)
    | some side ↦ get_next_in d iter lev side
  ]

  -- `getPrev` from an array
  unfoldable pub get_prev_in : DoubleHeap D → DoubleIter → ℕ → Side → Option (ℕ × DoubleIter)
  get_prev_in d iter lev side = do
    node ← side_entry d side (lev - 1)
    if node == iter.list
        then some (null, iter)
        else some (
          node,
          record iter { next = some side; prevlev = d.heap.sz node; prev = some (prevs node) },
        )

  -- `getPrev`
  unfoldable pub get_prev : DoubleHeap D → DoubleIter → ℕ → Option (ℕ × DoubleIter)
  get_prev d iter lev = iter.prev >>= (λ side. get_prev_in d iter lev side)

  -- `MySKLgetNextNode`
  unfoldable pub get_next_node_double : DoubleHeap D → DoubleIter → ℕ → Option (ℕ × DoubleIter)
  get_next_node_double d iter lev =
      if is_sane iter lev then get_next_double d iter lev else some (null, iter)

  -- `MySKLgetPrevNode`
  unfoldable pub get_prev_node : DoubleHeap D → DoubleIter → ℕ → Option (ℕ × DoubleIter)
  get_prev_node d iter lev = if is_sane iter lev then get_prev d iter lev else some (null, iter)
