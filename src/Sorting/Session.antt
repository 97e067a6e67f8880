-- ===== src/Sorting/Session.antt =====
-- A client's whole use of a list: `MySKLinit` of src/skl_init.c, insertions, and `MySKLdestroy` of
-- src/skl_dst.c, seen by `MySKLmemoryCleaned` of src/skl_misc.c.
use myskl.Prelude.{
  ℕ, ◌+◌, ◌^◌, ◌<◌, ◌≤◌, ◌≡◌, ◌≢◌, refl, true, false, Option, some, none, List, arith, length, All,
  All-mono, ◌>>=◌, Ordering, ap,
}
use myskl.Heap.{Heap}
use myskl.Heap.Chain.{Distinct}
use myskl.Heap.Writes.{update_self}
use myskl.SkipList.{Status, SkipList, max_levels, null}
use myskl.SkipList.Cells.{Cells, addrs, IsOrder}
use myskl.Init.{init_list, new_list}
use myskl.Init.Empty.{init_list-built}
use myskl.Destroy.{destroy_list}
use myskl.Destroy.Freed.{destroy_list-Freed}
use myskl.Misc.{memory_cleaned}
use myskl.Sorting.{insert_each, insert_each-IsSorted}

module _ {D : Type 0} where
  -- A new list with a destroyer, and the nodes inserted into it
  abbrev pub make_list :
      Heap D
      → ℕ
      → ℕ
      → (D → D → Ordering)
      → List ℕ
      → Option (List Status × Option (SkipList D) × Heap D)
  make_list h header max compare ns = do
    (status, l, h') ← init_list h header max (some compare) true
    insert_each ns l h'

  -- A node of the client's that is not yet in a list
  pub record IsLoose (h : Heap D) (header : ℕ) (c : ℕ × D) : Type 0 where
    pub apart : c.0 ≢ header
    pub holds : h.val c.0 ≡ some c.1
    pub real : c.0 ≢ null

  -- A client makes a list of 1 to MYSKL_MAXLEVELS levels with an order and a destroyer, inserts fewer
  -- than 2 ^ 32 nodes that are all different, not NULL and not the header, and destroys the list, while
  -- memory is given, for the header at an address that is not NULL. If `MySKLmemoryCleaned` holds before that, then it does not while the list lives,
  -- and it holds again after `MySKLdestroy`, which sets the list to NULL.
  pub memory_cleaned-session :
      (h : Heap D) (header max : ℕ) (compare : D → D → Ordering) (ys : Cells D)
      → 1 ≤ max
      → max ≤ max_levels
      → IsOrder compare
      → header ≢ null
      → ((k : ℕ) → h.avail k ≡ true)
      → All (IsLoose h header) ys
      → Distinct (addrs ys)
      → length ys < 2 ^ 32
      → memory_cleaned h ≡ true
      → (statuses : List Status) × (l : SkipList D) × (h' h'' : Heap D) × (make_list h header max
            compare
            (addrs ys)
          ≡ some (statuses, some l, h'))
        × (memory_cleaned h' ≡ false)
        × (destroy_list (some l) h' ≡ some (none, h''))
        × (memory_cleaned h'' ≡ true)
  unfolding memory_cleaned new_list
  memory_cleaned-session h header max compare ys pos low order real room loose distinct fits clean =
      let (f, begun, empty) =
        init_list-built h header max compare true pos low order real
          (λ k lt. room (h.stat.calls + k)) in
      let (result, run, done) =
        insert_each-IsSorted ys empty
          (All-mono _ _
            (λ c q. record { apart = q.apart; out = refl; holds = q.holds; real = q.real }) ys
            loose)
          distinct (omega arith) room refl (omega (arith, update_self h.sz header max)) in
      let (h'', ended, _, _, _, allocs, frees) = destroy_list-Freed done.kept (done.same_dst) in
      (
        result.0,
        done.list,
        result.2,
        h'',
        rw (begun, ◌>>=◌, run) (ap (λ l. some (result.0, l, result.2)) done.has_list),
        ground (arith, done.alloc_count, done.freed_count),
        ended,
        ground (arith, done.alloc_count, done.freed_count, allocs, frees, done.number),
      )
