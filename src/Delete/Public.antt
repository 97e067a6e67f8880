-- ===== src/Delete/Public.antt =====
-- `MySKLdeleteNF` (no forcing, `force` false) and `MySKLdeleteAF` (`force` true).
use myskl.Prelude.{
  ℕ, ◌<◌, ◌^◌, ◌≡◌, refl, sym, subst, ap, ◌∙◌, Bool, true, false, not, ◌&&◌, ◌||◌, Option, some,
  none, ◌∷◌, ◌++◌, arith, ◌>>=◌, if◌then◌else◌, ◌==◌, Bool-cases, inl, inr,
}
use myskl.Heap.{Heap}
use myskl.SkipList.{status_ok, key_not_found, node_not_deleted, SkipList, matches, is_eq}
use myskl.SkipList.Cells.{Cells, addrs, before, after, before-append-after}
use myskl.SkipList.Invariant.{IsSkipList}
use myskl.SkipList.Guards.{guarded-some}
use myskl.SkipList.Find.{
  contains, erase_cell, erase_cell-split, contains-length, find_cell, find_cell-after,
  find_cell-contains, find_cell-All,
}
use myskl.SkipList.Place.{pred_at}
use myskl.SkipList.Descent.{walkable, load-pred_at, matches-contains, descend-update}
use myskl.Delete.{data_destroyed, remove_node, delete_i, delete_with}
use myskl.Delete.Node.{Deleted, remove_node-Deleted}
use myskl.Heap.Chain.{head_or}

-- Whether a destroyer of data lets a node with data `v` be deleted.
abbrev pub lets_go : {D : Type 0} → Option (D → Bool) → D → Bool
lets_go none v = true
lets_go (some dstdatafunc) v = dstdatafunc v

module _ {D : Type 0} {h : Heap D} {l : SkipList D} {xs : Cells D} {n : ℕ} {d : D}
    (inv : IsSkipList h l xs) (target : h.val n ≡ some d) where
  -- If no node of a well-formed list compares equal to the data of the given node,
  -- `MySKLdeleteNF` and `MySKLdeleteAF` report MYSKL_KEY_NOT_FOUND and change neither the list
  -- nor the heap.
  pub delete_with-missing :
      contains l.cmp d xs ≡ false
      → (force : Bool) (dstdatafunc : Option (D → Bool))
      → delete_with force (some l) h n dstdatafunc ≡ some (key_not_found, some l, h)
  unfolding delete_with delete_i
  delete_with-missing missing force dstdatafunc =
      let (upd, run, set) = descend-update inv target in
      guarded-some _ inv (elim (Bool-cases (l.nodenum == 0)) [
        | inl empty ↦ rw empty
        | inr filled ↦ rw (
          filled,
          run,
          ◌>>=◌,
          load-pred_at inv target,
          ◌>>=◌,
          matches-contains inv target,
          ◌>>=◌,
          missing,
        )
      ])

  data_destroyed-lets_go :
      (x : ℕ) (v : D)
      → h.val x ≡ some v
      → (dstdatafunc : Option (D → Bool))
      → data_destroyed dstdatafunc h x ≡ some (lets_go dstdatafunc v)
  unfolding data_destroyed
  data_destroyed-lets_go x v holds none = refl
  data_destroyed-lets_go x v holds (some dstdatafunc) = rw (holds, ◌>>=◌)

  delete_i_found :
      (x : ℕ) (v : D) (vs : Cells D)
      → find_cell l.cmp d xs ≡ some (x, v)
      → after l.cmp d xs ≡ (x, v) ∷ vs
      → (force : Bool) (dstdatafunc : Option (D → Bool))
      → (upd : ℕ → Option ℕ) × ((j : ℕ)
          → j < l.curlevel
          → upd j ≡ some (pred_at (walkable inv target) j))
        × (delete_i l h n dstdatafunc force ≡ (
            if not (lets_go dstdatafunc v) && not force
            then some (node_not_deleted, l, h)
            else remove_node l h x upd))
  unfolding delete_i
  delete_i_found x v vs found first force dstdatafunc =
      let (upd, run, set) = descend-update inv target in
      let head = load-pred_at inv target ∙ ap (λ ys. some (head_or l.header (addrs ys))) first in
      let same =
        ap (λ ys. matches l h (head_or l.header (addrs ys)) n) (sym first)
        ∙ matches-contains inv target
        ∙ ap some (find_cell-contains l.cmp d xs x v found) in
      let answer =
        data_destroyed-lets_go x v (find_cell-All l.cmp d _ xs inv.nodes (x, v) found).holds
          dstdatafunc in
      (upd, set, rw (run, ◌>>=◌, head, ◌>>=◌, same, ◌>>=◌, answer, ◌>>=◌))

  removed :
      (x : ℕ) (v : D) (vs : Cells D)
      → after l.cmp d xs ≡ (x, v) ∷ vs
      → is_eq (l.cmp v d) ≡ true
      → (upd : ℕ → Option ℕ)
      → ((j : ℕ) → j < l.curlevel → upd j ≡ some (pred_at (walkable inv target) j))
      → l.nodenum < 2 ^ 32
      → (l' : SkipList D) × (h' : Heap D) × (remove_node l h x upd ≡ some (status_ok, l', h'))
        × Deleted h l xs (erase_cell l.cmp d xs) x h' l'
  removed x v vs first same upd set small =
      let us = before l.cmp d xs in
      let whole = sym (before-append-after l.cmp d xs) ∙ ap (λ ys. us ++ ys) first in
      let (l', h', done, deleted) =
        remove_node-Deleted us vs x v (subst (IsSkipList h l) whole inv) upd set small in
      (
        l',
        h',
        done,
        subst (λ ys. Deleted h l ys (erase_cell l.cmp d xs) x h' l') (sym whole)
            (subst (λ ys. Deleted h l (us ++ (x, v) ∷ vs) ys x h' l')
              (sym (erase_cell-split l.cmp d xs x v vs first same)) deleted),
      )

  filled : contains l.cmp d xs ≡ true → (l.nodenum == 0) ≡ false
  filled e = ground (arith, contains-length l.cmp d xs e, inv.count)

  -- On a well-formed list of fewer than 2 ^ 32 nodes whose first node that compares equal to
  -- the data of the given node is `x` with data `v`, if the caller's function lets `v` go or
  -- the deletion is forced, `MySKLdeleteNF` and `MySKLdeleteAF` end without an access out of
  -- bounds and report success. The list is then well formed and holds the old cells without
  -- that first one; the array of `x` is freed, its data is released if the list has a
  -- destroyer, one block has been freed, and no other data and no node outside the list has
  -- changed.
  pub delete_with-Deleted :
      (x : ℕ) (v : D)
      → find_cell l.cmp d xs ≡ some (x, v)
      → l.nodenum < 2 ^ 32
      → (force : Bool) (dstdatafunc : Option (D → Bool)) → (lets_go dstdatafunc v || force) ≡ true
      → (l' : SkipList D) × (h' : Heap D) × (delete_with force (some l) h n dstdatafunc
          ≡ some (status_ok, some l', h'))
        × Deleted h l xs (erase_cell l.cmp d xs) x h' l'
  unfolding delete_with
  delete_with-Deleted x v found small force dstdatafunc goes =
      let (vs, first, same) = find_cell-after l.cmp d inv.order xs inv.sorted x v found in
      let (upd, set, run) = delete_i_found x v vs found first force dstdatafunc in
      let (l', h', done, deleted) = removed x v vs first same upd set small in
      (
        l',
        h',
        guarded-some _ inv (
            rw (filled (find_cell-contains l.cmp d xs x v found), run)
              (ground (arith, goes) ∙ done)),
        deleted,
      )

  -- On a well-formed list whose first node that compares equal holds `v`, if the caller's
  -- function does not let `v` go, `MySKLdeleteNF` reports MYSKL_NODE_NOT_DELETED and changes
  -- neither the list nor the heap.
  delete_with-refused :
      (x : ℕ) (v : D)
      → find_cell l.cmp d xs ≡ some (x, v)
      → (dstdatafunc : Option (D → Bool)) → lets_go dstdatafunc v ≡ false
      → delete_with false (some l) h n dstdatafunc ≡ some (node_not_deleted, some l, h)
  unfolding delete_with
  delete_with-refused x v found dstdatafunc kept =
      let (vs, first, same) = find_cell-after l.cmp d inv.order xs inv.sorted x v found in
      let (upd, set, run) = delete_i_found x v vs found first false dstdatafunc in
      guarded-some _ inv (rw (filled (find_cell-contains l.cmp d xs x v found), run, kept))
