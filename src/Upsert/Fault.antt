-- ===== src/Upsert/Fault.antt =====
-- `updateNodeData` of src/skl_ins.c at the end of a list.
use myskl.Prelude.{
  ℕ, ◌<◌, ◌≡◌, ◌≢◌, refl, sym, ap, ◌∙◌, some, none, ◌∷◌, [], arith, ◌>>=◌, ne→==, suc, subst, All,
}
use myskl.Heap.{Heap, update}
use myskl.Heap.Writes.{load-some, update_ne}
use myskl.Heap.Chain.{Chain}
use myskl.SkipList.{SkipList, null, up_all_mode, rounds, eq}
use myskl.SkipList.Cells.{Cells, addrs, after}
use myskl.SkipList.Invariant.{IsSkipList}
use myskl.SkipList.Guards.{guarded-none}
use myskl.SkipList.Place.{pred_at}
use myskl.SkipList.Find.{find_cell, find_cell-All}
use myskl.SkipList.Descent.{walkable, Chain-rest, rest_nodes, rest_out}
use myskl.Upsert.{update_node_data, insert_upd_all}
use myskl.Upsert.Public.{insert_i-found, update_val_lem}

module _ {D : Type 0} {h : Heap D} {l : SkipList D} {xs : Cells D} {x : ℕ} {d : D}
    (inv : IsSkipList h l xs) where
  update_node_data-fault :
      (updfunc : D → D → D) (y z : ℕ) (v : D)
      → h.val y ≡ some v
      → h.val x ≡ some d
      → h.val l.header ≡ none
      → y ≢ l.header
      → z ≢ l.header
      → h.next y 0 ≡ z
      → h.next z 0 ≡ l.header
      → 0 < h.cap y
      → 0 < h.cap z
      → update_node_data l updfunc x up_all_mode (rounds l) h y ≡ none
  unfolding update_node_data eq
  update_node_data-fault updfunc y z v holds target bare ne_y ne_z to_z to_end wy wz =
      let enough : rounds l ≡ suc l.nodenum = omega arith in
      let h' : Heap D = record h { val = update h.val y (some (updfunc v d)) } in
      ap (λ fuel. update_node_data l updfunc x up_all_mode fuel h y) enough
      ∙ rw (
        update_val_lem inv updfunc y v holds target,
        ◌>>=◌,
        load-some h' y 0 wy,
        ◌>>=◌,
        to_z,
        ne→== z l.header ne_z,
        load-some h' z 0 wz,
        ◌>>=◌,
        to_end,
        update_ne h.val y (some (updfunc v d)) {x = l.header} (λ e. ne_y (sym e)),
        bare,
        ◌>>=◌,
      )

  -- On a well-formed list whose header has no data, if the first node `y` that compares equal
  -- to the given node is the next to last of the list, the loop of `MySKLinsertUPD_ALL` reads
  -- the data of the header: the run is a fault, whatever the last node holds.
  pub insert_upd_all-fault :
      (updfunc : D → D → D)
      → h.val x ≡ some d
      → x ≢ null
      → h.val l.header ≡ none
      → (y z : ℕ) (v w : D) → find_cell l.cmp d xs ≡ some (y, v)
      → after l.cmp d xs ≡ (y, v) ∷ (z, w) ∷ []
      → insert_upd_all (some l) h x (some updfunc) ≡ none
  unfolding insert_upd_all
  insert_upd_all-fault updfunc target ne bare y z v w found ends =
      let holds = (find_cell-All l.cmp d _ xs inv.nodes (y, v) found).holds in
      let chain =
        subst (λ ys. Chain h.next l.header 0 (pred_at (walkable inv target) 0) (addrs ys)) ends
          (Chain-rest inv target) in
      let nodes = subst (All _) ends (rest_nodes inv target) in
      let out = subst (All _) ends (rest_out inv target) in
      guarded-none _ inv (
        rw (
          ne→== x null ne,
          insert_i-found inv target y v found updfunc 0 up_all_mode refl refl,
          update_node_data-fault updfunc y z v holds target bare out.0 out.1.0 chain.1.0 chain.1.1
              (omega (arith, nodes.0.full, nodes.0.pos))
              (omega (arith, nodes.1.0.full, nodes.1.0.pos)),
          ◌>>=◌,
        ))
