-- ===== src/RoundTrip.antt =====
-- Operations one after the other: src/skl_ins.c, then src/skl_search.c or src/skl_del.c.
use myskl.Prelude.{
  ℕ, ◌+◌, ◌^◌, ◌<◌, ◌≡◌, ◌≢◌, sym, ap, ◌∙◌, subst, Bool, true, false, Option, some, [], ◌∷◌, ◌++◌,
  arith, length, All, Ordering,
}
use myskl.Heap.{Heap}
use myskl.Heap.Chain.{has, has-append}
use myskl.SkipList.{SkipList, status_ok, key_found, null, is_eq}
use myskl.SkipList.Cells.{
  Cells, IsOrder, addrs, addrs-append, before, after, before-append-after, before-All, insert_cell,
  length-insert_cell,
}
use myskl.SkipList.Invariant.{IsSkipList}
use myskl.SkipList.Find.{contains, contains-append, erase_cell, find_cell}
use myskl.Insert.{insert_ad}
use myskl.Insert.Plain.{IsFresh}
use myskl.Insert.Public.{insert_ad-Inserted}
use myskl.Search.{search_list}
use myskl.Search.Found.{IsFound, search_list-IsFound}
use myskl.Delete.{delete_af}
use myskl.Delete.Public.{delete_with-Deleted}

module _ {D : Type 0} (cmp : D → D → Ordering) (ord : IsOrder cmp) (x : ℕ) (d : D) where
  same_data : is_eq (cmp d d) ≡ true
  same_data = ground (arith, ord.lt_asymm d d, ord.gt_asymm d d)

  find_cell-append :
      (us vs : Cells D)
      → All (λ c. cmp c.1 d ≡ Ordering.lt) us
      → find_cell cmp d (us ++ (x, d) ∷ vs) ≡ some (x, d)
  find_cell-append [] vs all = rw same_data
  find_cell-append ((a, v) ∷ us) vs all = rw all.0 (find_cell-append us vs all.1)

  erase_cell-append :
      (us vs : Cells D)
      → All (λ c. cmp c.1 d ≡ Ordering.lt) us
      → erase_cell cmp d (us ++ (x, d) ∷ vs) ≡ us ++ vs
  erase_cell-append [] vs all = rw same_data
  erase_cell-append ((a, v) ∷ us) vs all =
      rw all.0 (ap (λ ys. (a, v) ∷ ys) (erase_cell-append us vs all.1))

  find_cell-insert_cell : (xs : Cells D) → find_cell cmp d (insert_cell cmp d x xs) ≡ some (x, d)
  find_cell-insert_cell xs =
      find_cell-append (before cmp d xs) (after cmp d xs) (before-All cmp d xs)

  erase_cell-insert_cell : (xs : Cells D) → erase_cell cmp d (insert_cell cmp d x xs) ≡ xs
  erase_cell-insert_cell xs =
      erase_cell-append (before cmp d xs) (after cmp d xs) (before-All cmp d xs)
      ∙ before-append-after cmp d xs

  contains-insert_cell : (xs : Cells D) → contains cmp d (insert_cell cmp d x xs) ≡ true
  contains-insert_cell xs =
      ground (arith, contains-append cmp d (before cmp d xs) ((x, d) ∷ after cmp d xs), same_data)

  pub has-insert_cell :
      (a : ℕ) (xs : Cells D)
      → a ≢ x
      → has a (addrs xs) ≡ false
      → has a (addrs (insert_cell cmp d x xs)) ≡ false
  has-insert_cell a xs ne out = ground (
    arith,
    ap (has a) (addrs-append (before cmp d xs) ((x, d) ∷ after cmp d xs)),
    has-append a (addrs (before cmp d xs)) (x ∷ addrs (after cmp d xs)),
    ap (has a) (addrs-append (before cmp d xs) (after cmp d xs)),
    has-append a (addrs (before cmp d xs)) (addrs (after cmp d xs)),
    ap (λ ys. has a (addrs ys)) (before-append-after cmp d xs),
  )

module _ {D : Type 0} {h : Heap D} {l : SkipList D} {xs : Cells D} {x : ℕ} {d : D}
    (inv : IsSkipList h l xs) (fresh : IsFresh h l xs x d) (ne : x ≢ null)
    (fits : length xs + 1 < 2 ^ 32) (room : h.avail h.stat.calls ≡ true) where
  -- On a well-formed list that stays below 2 ^ 32 nodes, none of which is NULL, given memory, for a node with data `d`
  -- that is not in the list and not NULL: after `MySKLinsertAD` of the node, `MySKLsearch` of
  -- any node with data `d` reports MYSKL_KEY_FOUND with a node of the new list that compares
  -- equal to `d`.
  pub search_list-insert_ad :
      has null (addrs xs) ≡ false
      → (n : ℕ) → h.val n ≡ some d
      → (l' : SkipList D) × (h' : Heap D) × (y : ℕ) × (insert_ad (some l) h x
          ≡ some (status_ok, some l', h'))
        × (search_list (some l') h' n ≡ some (key_found, some y))
        × IsFound h' l' (insert_cell l.cmp d x xs) d y
  search_list-insert_ad real n target =
      let (l', h', run, ins) = insert_ad-Inserted inv fresh ne fits room in
      let (y, done, found) =
        search_list-IsFound ins.kept (ins.vals n ∙ target)
          (ap (λ c. contains c d (insert_cell l.cmp d x xs)) ins.same_cmp
            ∙ contains-insert_cell l.cmp inv.order x d xs)
          (has-insert_cell l.cmp inv.order x d null xs (λ e. ne (sym e)) real) in
      (l', h', y, run, done, found)

  -- On a well-formed list that stays below 2 ^ 32 nodes, given memory, for a node with data `d` that
  -- is not in the list and not NULL: `MySKLinsertAD` of the node and then `MySKLdeleteAF` of any node with data `d`
  -- both succeed, and take out just the node that was inserted. The list is then well formed
  -- and holds the cells that it held at first, even if some of them compare equal to `d`, and
  -- the node has no array.
  pub delete_af-insert_ad :
      (n : ℕ)
      → h.val n ≡ some d
      → (dstdatafunc : Option (D → Bool))
      → (l' : SkipList D) × (h' : Heap D) × (l'' : SkipList D) × (h'' : Heap D) × (insert_ad
            (some l)
            h
            x
          ≡ some (status_ok, some l', h'))
        × (delete_af (some l') h' n dstdatafunc ≡ some (status_ok, some l'', h''))
        × IsSkipList h'' l'' xs
        × (h''.cap x ≡ 0)
  delete_af-insert_ad n target dstdatafunc =
      let (l', h', run, ins) = insert_ad-Inserted inv fresh ne fits room in
      let ys = insert_cell l.cmp d x xs in
      let (l'', h'', done, deleted) =
        delete_with-Deleted ins.kept (ins.vals n ∙ target) x d
          (ap (λ c. find_cell c d ys) ins.same_cmp ∙ find_cell-insert_cell l.cmp inv.order x d xs)
          (omega (arith, ins.kept.count, length-insert_cell l.cmp d x xs)) true dstdatafunc
          (ground arith) in
      let back =
        ap (λ c. erase_cell c d ys) ins.same_cmp ∙ erase_cell-insert_cell l.cmp inv.order x d xs in
      (l', h', l'', h'', run, done, subst (IsSkipList h'' l'') back deleted.kept, deleted.no_array)
