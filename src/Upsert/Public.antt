-- ===== src/Upsert/Public.antt =====
-- `MySKLinsertND`, `MySKLinsertUPD` and `MySKLinsertUPD_ALL` of src/skl_ins.c.
use myskl.Prelude.{
  ℕ, ◌+◌, ◌<◌, ◌^◌, ◌≡◌, ◌≢◌, refl, sym, ap, ◌∙◌, true, false, Option, some, arith, ◌>>=◌, length,
  ne→==, ◌||◌, suc,
}
use myskl.Heap.{Heap, update}
use myskl.Heap.Chain.{head_or}
use myskl.SkipList.{
  SkipList, status_ok, mem_exhausted, duplicate_key, null, nd_mode, up_one_mode, up_all_mode,
  has_mode, matches, rounds, ad_mode,
}
use myskl.SkipList.Cells.{Cells, addrs}
use myskl.SkipList.Invariant.{IsSkipList}
use myskl.SkipList.Guards.{guarded-some}
use myskl.SkipList.Place.{pred_at}
use myskl.SkipList.Find.{contains, find_cell, find_cell-after, find_cell-contains, find_cell-All}
use myskl.SkipList.Descent.{walkable, descend-update, load-pred_at, matches-contains}
use myskl.Gen.{gen_level}
use myskl.Insert.Nodes.{starved}
use myskl.Insert.Plain.{IsFresh, Inserted}
use myskl.Upsert.{
  update_val, update_node_data, add_node_and_update_links, insert_i, insert_nd, insert_upd,
}
use myskl.Upsert.Added.{add_node_and_update_links-Inserted, add_node_and_update_links-starved}

module _ {D : Type 0} {h : Heap D} {l : SkipList D} {xs : Cells D} {x : ℕ} {d : D}
    (inv : IsSkipList h l xs) where
  -- With no node that compares equal, the new node is added behind the places of the descent.
  pub insert_i-missing :
      (fresh : IsFresh h l xs x d)
      → contains l.cmp d xs ≡ false
      → (updfunc : D → D → D) (given options : ℕ)
      → (upd : ℕ → Option ℕ) × ((j : ℕ)
          → j < l.curlevel
          → upd j ≡ some (pred_at (walkable inv fresh.holds) j))
        × (insert_i l h x updfunc given options ≡ add_node_and_update_links l upd h x given options)
  unfolding insert_i
  insert_i-missing fresh missing updfunc given options =
      let (upd, run, set) = descend-update inv fresh.holds in
      (
        upd,
        set,
        rw (
          run,
          ◌>>=◌,
          load-pred_at inv fresh.holds,
          ◌>>=◌,
          matches-contains inv fresh.holds,
          ◌>>=◌,
          missing,
        ),
      )

  -- If duplicates are refused and some node compares equal, nothing is changed.
  pub insert_i-known :
      h.val x ≡ some d
      → (updfunc : D → D → D) → contains l.cmp d xs ≡ true
      → insert_i l h x updfunc 0 nd_mode ≡ some (duplicate_key, l, h)
  unfolding insert_i
  insert_i-known target updfunc known =
      let (upd, run, set) = descend-update inv target in
      rw (run, ◌>>=◌, load-pred_at inv target, ◌>>=◌, matches-contains inv target, ◌>>=◌, known)

  -- If duplicates are allowed, the new node is added behind these places in any case.
  pub insert_i-ad :
      (fresh : IsFresh h l xs x d) (updfunc : D → D → D) (given : ℕ)
      → (upd : ℕ → Option ℕ) × ((j : ℕ)
          → j < l.curlevel
          → upd j ≡ some (pred_at (walkable inv fresh.holds) j))
        × (insert_i l h x updfunc given ad_mode ≡ add_node_and_update_links l upd h x given ad_mode)
  unfolding insert_i
  insert_i-ad fresh updfunc given =
      let (upd, run, set) = descend-update inv fresh.holds in
      (
        upd,
        set,
        rw
            (
              run,
              ◌>>=◌,
              load-pred_at inv fresh.holds,
              ◌>>=◌,
              matches-contains inv fresh.holds,
              ◌>>=◌,
            )
            (ground arith),
      )

  -- On a well-formed list that stays below 2 ^ 32 nodes, given memory, `MySKLinsertND` of a node that
  -- is not in the list, not NULL, and compares equal to no node of the list reports success. The list is then as
  -- `MySKLinsertAD` would leave it: well formed, with the new node in the place that its data
  -- asks for and as many levels as `genLevel` drew; no data and no node outside the list has
  -- changed.
  pub insert_nd-Inserted :
      IsFresh h l xs x d
      → x ≢ null
      → contains l.cmp d xs ≡ false
      → length xs + 1 < 2 ^ 32
      → h.avail h.stat.calls ≡ true
      → (l' : SkipList D) × (h' : Heap D) × (insert_nd (some l) h x ≡ some (status_ok, some l', h'))
        × Inserted h l xs x d h' l'
  unfolding insert_nd
  insert_nd-Inserted fresh ne missing fits room =
      let (upd, set, run) = insert_i-missing fresh missing (λ old new. old) 0 nd_mode in
      let (l', h', done, ins) =
        add_node_and_update_links-Inserted inv fresh upd set 0 nd_mode refl fits room in
      (l', h', guarded-some _ inv (rw (ne→== x null ne, run) done), ins)

  -- On a well-formed list, `MySKLinsertND` of a node that is not NULL and compares equal to
  -- some node of the list reports MYSKL_DUPLICATE_KEY, and changes neither the list nor the
  -- heap.
  pub insert_nd-duplicate :
      h.val x ≡ some d
      → x ≢ null
      → contains l.cmp d xs ≡ true
      → insert_nd (some l) h x ≡ some (duplicate_key, some l, h)
  unfolding insert_nd
  insert_nd-duplicate target ne some_cell =
      guarded-some _ inv (rw (ne→== x null ne) (insert_i-known target (λ old new. old) some_cell))

  -- On a well-formed list, with no memory left, `MySKLinsertND` of a node that is not in the
  -- list, not NULL, and compares equal to no node of the list reports MYSKL_MEM_EXHAUSTED; the
  -- list, whose generator has moved on, is well formed and holds the same cells.
  insert_nd-starved :
      IsFresh h l xs x d
      → x ≢ null
      → contains l.cmp d xs ≡ false
      → h.avail h.stat.calls ≡ false
      → (insert_nd (some l) h x ≡ some (mem_exhausted, some (gen_level l).1, starved h x))
        × IsSkipList (starved h x) (gen_level l).1 xs
  unfolding insert_nd
  insert_nd-starved fresh ne missing no_room =
      let (upd, set, run) = insert_i-missing fresh missing (λ old new. old) 0 nd_mode in
      let (done, kept) =
        add_node_and_update_links-starved inv fresh upd set 0 nd_mode refl no_room in
      (guarded-some _ inv (rw (ne→== x null ne, run) done), kept)

  -- On a well-formed list, given memory, `MySKLinsertUPD` of a node that is not in the list,
  -- not NULL, and compares equal to no node of the list inserts it in the place that its data
  -- asks for, and reports success.
  insert_upd-Inserted :
      (updfunc : D → D → D)
      → IsFresh h l xs x d
      → x ≢ null
      → contains l.cmp d xs ≡ false
      → length xs + 1 < 2 ^ 32
      → h.avail h.stat.calls ≡ true
      → (l' : SkipList D) × (h' : Heap D) × (insert_upd (some l) h x (some updfunc)
          ≡ some (status_ok, some l', h'))
        × Inserted h l xs x d h' l'
  unfolding insert_upd
  insert_upd-Inserted updfunc fresh ne missing fits room =
      let (upd, set, run) = insert_i-missing fresh missing updfunc 0 up_one_mode in
      let (l', h', done, ins) =
        add_node_and_update_links-Inserted inv fresh upd set 0 up_one_mode refl fits room in
      (l', h', guarded-some _ inv (rw (ne→== x null ne, run) done), ins)

  -- With a node that compares equal, the two operations of an update call `updateNodeData` on the
  -- first.
  pub insert_i-found :
      h.val x ≡ some d
      → (y : ℕ) (v : D) → find_cell l.cmp d xs ≡ some (y, v)
      → (updfunc : D → D → D) (given options : ℕ) → has_mode options nd_mode ≡ false
      → (has_mode options up_all_mode || has_mode options up_one_mode) ≡ true
      → insert_i l h x updfunc given options
        ≡ (update_node_data l updfunc x options (rounds l) h y >>= λ h'. some (status_ok, l, h'))
  unfolding insert_i
  insert_i-found target y v found updfunc given options nd up =
      let (upd, run, set) = descend-update inv target in
      let (vs, first, same) = find_cell-after l.cmp d inv.order xs inv.sorted y v found in
      let head = load-pred_at inv target ∙ ap (λ ys. some (head_or l.header (addrs ys))) first in
      let equal =
        ap (λ ys. matches l h (head_or l.header (addrs ys)) x) (sym first)
        ∙ matches-contains inv target
        ∙ ap some (find_cell-contains l.cmp d xs y v found) in
      rw (run, ◌>>=◌, head, ◌>>=◌, equal, ◌>>=◌, nd, up)

  pub update_val_lem :
      (updfunc : D → D → D) (y : ℕ) (v : D)
      → h.val y ≡ some v
      → h.val x ≡ some d
      → update_val updfunc h y x ≡ some (record h { val = update h.val y (some (updfunc v d)) })
  unfolding update_val
  update_val_lem updfunc y v holds target = rw (holds, ◌>>=◌, target, ◌>>=◌)

  update_node_data-one :
      (updfunc : D → D → D) (y : ℕ) (v : D)
      → h.val y ≡ some v
      → h.val x ≡ some d
      → update_node_data l updfunc x up_one_mode (rounds l) h y
        ≡ some (record h { val = update h.val y (some (updfunc v d)) })
  unfolding update_node_data
  update_node_data-one updfunc y v holds target =
      let enough : rounds l ≡ suc l.nodenum = omega arith in
      ap (λ fuel. update_node_data l updfunc x up_one_mode fuel h y) enough
      ∙ rw (update_val_lem updfunc y v holds target, ◌>>=◌)

  -- On a well-formed list, `MySKLinsertUPD` of a node that is not NULL and compares equal to
  -- some node of the list gives the first such node the updated data, reports success, and
  -- changes nothing else.
  pub insert_upd-updated :
      (updfunc : D → D → D)
      → h.val x ≡ some d
      → x ≢ null
      → (y : ℕ) (v : D) → find_cell l.cmp d xs ≡ some (y, v)
      → insert_upd (some l) h x (some updfunc)
        ≡ some (status_ok, some l, record h { val = update h.val y (some (updfunc v d)) })
  unfolding insert_upd
  insert_upd-updated updfunc target ne y v found =
      let holds = (find_cell-All l.cmp d _ xs inv.nodes (y, v) found).holds in
      guarded-some _ inv (
        rw (
          ne→== x null ne,
          insert_i-found target y v found updfunc 0 up_one_mode refl refl,
          update_node_data-one updfunc y v holds target,
          ◌>>=◌,
        ))
