-- ===== src/Init.antt =====
-- src/skl_init.c: an empty list.
pub mod Empty
use myskl.Prelude.{ℕ, ◌+◌, Bool, ◌&&◌, Option, none, some, Ordering, ltb, leb, if◌then◌else◌, ◌>>=◌}
use myskl.Heap.{Heap, update, alloc}
use myskl.Rand.{seed_value, rand_set_seed}
use myskl.SkipList.{
  Status, mem_exhausted, randgen_error, status_ok, error, SkipList, max_levels, list_magic,
}
use myskl.Insert.{alloc_next, nil_next}

module _ {D : Type 0} where
  -- `_sklFreeMemBlocks` of `n` blocks, none of them an array of pointers.
  unfoldable pub free_blocks : Heap D → ℕ → Heap D
  free_blocks h n =
      let st = h.stat in record h { stat = record st { freed_count = st.freed_count + n } }

  -- The list that `setinfo` fills in.
  unfoldable pub new_list : ℕ → ℕ → (D → D → Ordering) → Bool → SkipList D
  new_list header max compare dst = record {
    magic = list_magic;
    cmp = compare;
    dst = dst;
    rng_item = rand_set_seed seed_value;
    curlevel = 1;
    maxlevel = max;
    nodenum = 0;
    header = header;
    tail = header;
  }

  -- `setinfo`: the list, and the pointers of its header.
  unfoldable pub setinfo :
      Heap D → ℕ → ℕ → (D → D → Ordering) → Bool → Option (Status × Option (SkipList D) × Heap D)
  setinfo h header max compare dst =
      let l = new_list header max compare dst in
      nil_next l header max 0 (record h { sz = update h.sz header max }) >>= λ h'.
      some (status_ok, some l, h')

  -- `init`: `*err`, the list, and the heap; `header` is the address that the allocation of the
  -- header gives. Each failure frees what has been allocated before it.
  unfoldable pub init :
      Heap D → ℕ → ℕ → (D → D → Ordering) → Bool → Option (Status × Option (SkipList D) × Heap D)
  init h header max compare dst =
      let (rng_given, h1) = alloc h in
      let (list_given, h2) = alloc h1 in
      let (node_given, h3) = alloc h2 in
      let (next_given, h4) = alloc_next h3 header max in
      if rng_given
      then if list_given
        then if node_given
          then if next_given
            then setinfo h4 header max compare dst
            else some (mem_exhausted, none, free_blocks h4 3)
          else some (mem_exhausted, none, free_blocks h3 2)
        else some (mem_exhausted, none, free_blocks h2 1)
      else some (randgen_error, none, h1)

  -- `MySKLinit`; `compare` may be NULL.
  unfoldable pub init_list :
      Heap D
      → ℕ
      → ℕ
      → Option (D → D → Ordering)
      → Bool
      → Option (Status × Option (SkipList D) × Heap D)
  init_list h header maxlev none dst = some (error, none, h)
  init_list h header maxlev (some compare) dst =
      if ltb 0 maxlev && leb maxlev max_levels
      then init h header maxlev compare dst
      else some (error, none, h)
