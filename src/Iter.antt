-- ===== src/Iter.antt =====
-- src/skl_iter.c and the search for all equal nodes of src/skl_search.c. An iterator points at the
-- array of a node. The operations that differ only in the use of a mutex are one definition.
pub mod Traverse
pub mod EqualRun
pub mod SearchAll
use myskl.Prelude.{
  ℕ, zero, suc, ◌-◌, Bool, true, false, not, ◌&&◌, ◌||◌, Option, none, some, leb, ◌==◌,
  if◌then◌else◌, ◌>>=◌,
}
use myskl.Heap.{Heap, load, alloc}
use myskl.Init.{free_blocks}
use myskl.SkipList.{
  Status, error, key_found, key_not_found, SkipList, null, rounds, walk, verify_list, matches,
}

-- `MySKL_ITER_MAGIC`
abbrev pub iter_magic : ℕ
iter_magic = 0x3544da2a

-- `struct MySKLiterator`: `next` is the node whose array the field of the same name points at, none
-- for NULL; `list` is the header of the list. The field `prev` is only read with double links.
pub record Iter : Type 0 where
  pub magic : ℕ
  pub next : Option ℕ
  pub list : ℕ
  pub term : ℕ
  pub prevlev : ℕ

-- `someSanityChecks`, of an iterator that is not NULL
unfoldable pub some_sanity_checks : Iter → ℕ → Bool
some_sanity_checks iter lev = (iter.magic == iter_magic) && leb lev iter.prevlev && leb 1 lev

module _ {D : Type 0} where
  -- `getNext`: the node, NULL at the end, and the iterator.
  unfoldable pub get_next : Heap D → Iter → ℕ → Option (ℕ × Iter)
  get_next h iter lev = elim iter.next [
    | none ↦ some (null, iter)
    | some at ↦ do
      node ← load h at (lev - 1)
      if (node == iter.list) || (not (iter.term == null) && node == iter.term)
          then some (null, iter)
          else some (node, record iter { prevlev = h.sz node; next = some node })
  ]

  -- `setIterator`
  unfoldable pub set_iterator : SkipList D → Heap D → ℕ → ℕ → Iter
  set_iterator l h n term =
      let start = if n == null then l.header else n in
      record {
        magic = iter_magic;
        next = some start;
        list = l.header;
        term = term;
        prevlev = h.sz start;
      }

  -- `MySKLsetIterator`: the iterator, none for what is not set, and the heap.
  unfoldable pub new_iterator : Option (SkipList D) → Heap D → ℕ → Option Iter × Heap D
  new_iterator none h n = (none, h)
  new_iterator (some l) h n =
      if verify_list l
      then (let (given, h') = alloc h in
          (if given then some (set_iterator l h' n null) else none, h'))
      else (none, h)

  -- `MySKLgetNextNode`
  unfoldable pub get_next_node : Heap D → Iter → ℕ → Option (ℕ × Iter)
  get_next_node h iter lev =
      if some_sanity_checks iter lev then get_next h iter lev else some (null, iter)

  -- `MySKLresetIterator`
  unfoldable pub reset_iterator : SkipList D → Heap D → Iter → ℕ → Iter
  reset_iterator l h iter n = if iter.magic == iter_magic then set_iterator l h n null else iter

  -- `MySKLdestroyIterator`: what `*iter` is then, and the heap.
  unfoldable pub destroy_iterator : Option Iter → Heap D → Option Iter × Heap D
  destroy_iterator none h = (none, h)
  destroy_iterator (some iter) h =
      if iter.magic == iter_magic then (none, free_blocks h 1) else (some iter, h)

  -- The second loop of `searchAll`: the last of the equal nodes behind `x`.
  unfoldable pub equal_run : SkipList D → Heap D → ℕ → ℕ → ℕ → Option ℕ
  equal_run l h n zero x = none
  equal_run l h n (suc fuel) x = do
    y ← load h x 0
    more ← matches l h y n
    elim more [ true ↦ equal_run l h n fuel y | false ↦ some x ]

  -- `searchAll`: the node in front of the first equal one, and the terminator.
  unfoldable pub search_all : SkipList D → Heap D → ℕ → Option (Option (ℕ × ℕ))
  search_all l h n = do
    x ← walk l h n 0 (rounds l) l.header
    y ← load h x 0
    found ← matches l h y n
    elim found [
      | true ↦ do last ← equal_run l h n (rounds l) y; term ← load h last 0; some (some (x, term))
      | false ↦ some none
    ]

  -- `set_dup_iterator`
  unfoldable pub set_dup_iterator : SkipList D → Option ℕ → ℕ → Iter
  set_dup_iterator l n term = record {
    magic = iter_magic;
    next = n;
    list = l.header;
    term = term;
    prevlev = 1;
  }

  -- `MySKLsearchALL`, with a place for the iterator: the status, the iterator and the heap.
  unfoldable pub search_list_all :
      Option (SkipList D) → Heap D → ℕ → Option (Status × Option Iter × Heap D)
  search_list_all none h tofound = some (error, none, h)
  search_list_all (some l) h tofound =
      if verify_list l
      then (let (given, h') = alloc h in
          if given
          then (do
            found ← (if l.nodenum == 0 then some none else search_all l h' tofound)
            elim found [
              | none ↦ some (key_not_found, some (set_dup_iterator l none null), h')
              | some ends ↦ some (key_found, some (set_dup_iterator l (some ends.0) ends.1), h')
            ])
          else some (error, none, h'))
      else some (error, none, h)
