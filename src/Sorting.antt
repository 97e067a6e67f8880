-- ===== src/Sorting.antt =====
-- A client that sorts: src/skl_ins.c for one node after the other, then an iterator of src/skl_iter.c
-- from the first node to the last.
pub mod Session
use myskl.Prelude.{
  ℕ, ◌+◌, ◌^◌, ◌<◌, ◌≤◌, ◌≡◌, ◌≢◌, refl, sym, ap, ◌∙◌, subst, true, false, Option, some, List, [],
  ◌∷◌, ◌++◌, arith, length, All, Ordering, ◌>>=◌,
}
use mathlib.Core.List.Perm
use mathlib.Core.List.{Perm, perm_middle}
use myskl.Heap.{Heap}
use myskl.Heap.Chain.{has, Distinct}
use myskl.SkipList.{Status, SkipList, status_ok, null}
use myskl.SkipList.Cells.{
  Cells, addrs, before, after, before-append-after, insert_cell, length-insert_cell, Sorted,
  IsOrder,
}
use myskl.SkipList.Invariant.{IsSkipList}
use myskl.Insert.{insert_ad}
use myskl.Insert.Plain.{IsFresh, Inserted}
use myskl.Insert.Public.{insert_ad-Inserted}
use myskl.RoundTrip.{has-insert_cell}
use myskl.Iter.{set_iterator}
use myskl.Iter.Traverse.{traverse, traverse-set_iterator}

-- `MySKLinsertAD` of each node: the statuses, the list and the heap.
abbrev pub insert_each :
    {D : Type 0}
    → List ℕ
    → Option (SkipList D)
    → Heap D
    → Option (List Status × Option (SkipList D) × Heap D)
insert_each [] l h = some ([], l, h)
insert_each (n ∷ ns) l h = do
  (status, l', h') ← insert_ad l h n
  (statuses, l'', h'') ← insert_each ns l' h'
  some (status ∷ statuses, l'', h'')

module _ {D : Type 0} where
  insert_cell-perm :
      (cmp : D → D → Ordering) (v : D) (a : ℕ) (xs : Cells D)
      → Perm (insert_cell cmp v a xs) ((a, v) ∷ xs)
  insert_cell-perm cmp v a xs =
      subst (λ zs. Perm (insert_cell cmp v a xs) ((a, v) ∷ zs)) (before-append-after cmp v xs)
        (perm_middle (before cmp v xs) (after cmp v xs))

  -- A node of the client's that can be inserted
  pub record IsReady (h : Heap D) (l : SkipList D) (xs : Cells D) (c : ℕ × D) : Type 0 where
    pub apart : c.0 ≢ l.header
    pub out : has c.0 (addrs xs) ≡ false
    pub holds : h.val c.0 ≡ some c.1
    pub real : c.0 ≢ null

  next-IsReady :
      {h h' : Heap D} {l l' : SkipList D} {xs : Cells D} {a : ℕ} {v : D}
      → IsOrder l.cmp
      → Inserted h l xs a v h' l'
      → (ys : Cells D) → has a (addrs ys) ≡ false
      → All (IsReady h l xs) ys
      → All (IsReady h' l' (insert_cell l.cmp v a xs)) ys
  next-IsReady order ins [] out ready = tt
  next-IsReady {l} {xs} {a} {v} order ins ((b, w) ∷ ys) out ready =
      let differs : b ≢ a = λ e. absurd (ground (arith, e)) in
      (
        record {
          apart = λ e. ready.0.apart (e ∙ ins.same_header);
          out = has-insert_cell l.cmp order a v b xs differs ready.0.out;
          holds = ins.vals b ∙ ready.0.holds;
          real = ready.0.real;
        },
        next-IsReady order ins ys (ground arith) ready.1,
      )

  -- What the client gets: every insertion succeeds, the list is well formed, and the iterator gives
  -- its nodes, which are the old ones and the new ones in order; one array has been allocated for each
  -- new node and no block freed.
  pub record IsSorted (h : Heap D) (l : SkipList D) (xs ys : Cells D)
      (result : List Status × Option (SkipList D) × Heap D) : Type 0 where
    pub list : SkipList D
    pub cells : Cells D
    pub has_list : result.1 ≡ some list
    pub succeeded : All (λ s. s ≡ status_ok) result.0
    pub kept : IsSkipList result.2 list cells
    pub given :
        traverse result.2 (length cells + 1) (set_iterator list result.2 null null)
        ≡ some (addrs cells)
    pub sorted : Sorted l.cmp cells
    pub same : Perm cells (ys ++ xs)
    pub number : length cells ≡ length xs + length ys
    pub same_dst : list.dst ≡ l.dst
    pub alloc_count : result.2.stat.alloc_count ≡ h.stat.alloc_count + length ys
    pub freed_count : result.2.stat.freed_count ≡ h.stat.freed_count

  -- A client that sorts: into a well-formed list none of whose nodes is NULL and whose header has a
  -- level, MySKLinsertAD inserts nodes one after the other that are all different, not NULL and not in
  -- the list, while memory is given and the list stays below 2 ^ 32 nodes. Every call reports success,
  -- and an iterator set to the start then gives all the nodes, the old ones and the new ones each
  -- once, so that no node's data is less than that of a node before it. One block has been allocated
  -- for each new node, and none freed.
  pub insert_each-IsSorted :
      (ys : Cells D) {h : Heap D} {l : SkipList D} {xs : Cells D}
      → IsSkipList h l xs
      → All (IsReady h l xs) ys
      → Distinct (addrs ys)
      → length xs + length ys < 2 ^ 32
      → ((k : ℕ) → h.avail k ≡ true)
      → has null (addrs xs) ≡ false
      → 1 ≤ h.sz l.header
      → (result : List Status × Option (SkipList D) × Heap D) × (insert_each (addrs ys) (some l) h
          ≡ some result)
        × IsSorted h l xs ys result
  insert_each-IsSorted [] {h} {l} {xs} inv ready distinct fits room real high = (
    ([], some l, h),
    refl,
    record {
      list = l;
      cells = xs;
      has_list = refl;
      succeeded = tt;
      kept = inv;
      given = traverse-set_iterator inv real high;
      sorted = inv.sorted;
      same = Perm.refl xs;
      number = omega arith;
      same_dst = refl;
      alloc_count = omega arith;
      freed_count = refl;
    },
  )
  insert_each-IsSorted ((a, v) ∷ ys) {h} {l} {xs} inv ready distinct fits room real high =
      let fresh : IsFresh h l xs a v = record {
        apart = ready.0.apart;
        out = ready.0.out;
        holds = ready.0.holds;
      } in
      let (l1, h1, run, ins) =
        insert_ad-Inserted inv fresh ready.0.real (omega arith) (room h.stat.calls) in
      let wider : 1 ≤ h1.sz l1.header =
        omega (arith, ap h1.sz ins.same_header, ins.sizes l.header (λ e. ready.0.apart (sym e))) in
      let (result, rest, done) =
        insert_each-IsSorted ys ins.kept (next-IsReady inv.order ins ys distinct.0 ready.1)
          distinct.1 (omega (arith, length-insert_cell l.cmp v a xs))
          (λ k. ap (λ f. f k) ins.avail ∙ room k)
          (has-insert_cell l.cmp inv.order a v null xs (λ e. ready.0.real (sym e)) real) wider in
      (
        (status_ok ∷ result.0, result.1, result.2),
        rw (run, ◌>>=◌, rest, ◌>>=◌) refl,
        record {
          list = done.list;
          cells = done.cells;
          has_list = done.has_list;
          succeeded = (refl, done.succeeded);
          kept = done.kept;
          given = done.given;
          sorted = subst (λ cmp. Sorted cmp done.cells) ins.same_cmp done.sorted;
          same = Perm.trans done.same (
              Perm.trans (Perm.append_left ys (insert_cell-perm l.cmp v a xs)) (perm_middle ys xs));
          number = omega (arith, done.number, length-insert_cell l.cmp v a xs);
          same_dst = done.same_dst ∙ ins.same_dst;
          alloc_count = omega (arith, done.alloc_count, ap (λ st. st.alloc_count) ins.stat);
          freed_count = done.freed_count ∙ ap (λ st. st.freed_count) ins.stat;
        },
      )
