-- ===== src/Upsert/Added.antt =====
-- `addNodeAndUpdateLinks` of src/skl_ins.c, after the descent.
use myskl.Prelude.{
  ℕ, ◌+◌, ◌-◌, ◌^◌, ◌<◌, ◌≡◌, refl, sym, ap, ◌∙◌, true, false, Option, some, arith, ◌>>=◌, length,
  last_or, max, ne→==,
}
use native.Mathlib.Decide.{dec_lt}
use myskl.Heap.{Heap, update}
use myskl.Heap.Writes.{update_self, update_ne}
use myskl.SkipList.{SkipList, status_ok, mem_exhausted, has_mode, cp_mode}
use myskl.SkipList.Cells.{Cells, at, before, height_pos}
use myskl.SkipList.Invariant.{IsSkipList}
use myskl.SkipList.Place.{
  pred_at, pred_at-ne, cap-pred_at, IsSkipList-Walkable, header-last_or, has-pre,
}
use myskl.SkipList.Frame.{IsSkipList-rng_item}
use myskl.SkipList.Descent.{walkable}
use myskl.Gen.{gen_level}
use myskl.Gen.Levels.{gen_level_bounds}
use myskl.Insert.Nodes.{prepared, starved, new_node-prepared, new_node-starved}
use myskl.Insert.Inserted.{IsNew, IsNew-IsSkipList}
use myskl.Insert.Plain.{
  IsFresh, Inserted, level_for-gen_level, raise-max, count_in_lem, prepared-IsSkipList,
  starved-IsSkipList,
}
use myskl.Upsert.{nil_update, add_node_and_update_links}
use myskl.Upsert.Links.{nil_update_lem, at-update, link_loop-Linked}

module _ {D : Type 0} {h : Heap D} {l : SkipList D} {xs : Cells D} {x : ℕ} {d : D}
    (inv : IsSkipList h l xs) (fresh : IsFresh h l xs x d) (upd : ℕ → Option ℕ)
    (set : (j : ℕ) → j < l.curlevel → upd j ≡ some (pred_at (walkable inv fresh.holds) j))
    (given options : ℕ) (drawn : has_mode options cp_mode ≡ false) where
  abbrev behind : ℕ → ℕ
  behind = pred_at (walkable inv fresh.holds)

  -- With the header on the new levels, the array holds the predecessors on all of them.
  all_set :
      (lev : ℕ) (j : ℕ)
      → j < lev
      → nil_update l.header (lev - l.curlevel) l.curlevel upd j ≡ some (behind j)
  all_set lev j lt =
      nil_update_lem l.header (lev - l.curlevel) l.curlevel upd j ∙ (elim (dec_lt j l.curlevel) [
        | yes old ↦ ground (arith, set j old)
        | no new ↦ ground (arith, header-last_or inv d j (omega arith))
      ])

  -- Given memory, it puts the node in the place that its data asks for, and reports success.
  pub add_node_and_update_links-Inserted :
      length xs + 1 < 2 ^ 32
      → h.avail h.stat.calls ≡ true
      → (l' : SkipList D) × (h' : Heap D) × (add_node_and_update_links l upd h x given options
          ≡ some (status_ok, l', h'))
        × Inserted h l xs x d h' l'
  unfolding add_node_and_update_links gen_level
  add_node_and_update_links-Inserted fits room =
      let l1 = (gen_level l).1 in
      let lev = (gen_level l).0 in
      let (lev_pos, lev_max, _) =
        gen_level_bounds l (omega (arith, inv.top, inv.fits, height_pos h.sz xs)) in
      let (f0, made, others, _) = new_node-prepared l1 h x lev lev_pos room in
      let h1 = prepared h x lev f0 in
      let inv1 : IsSkipList h1 l1 xs =
        IsSkipList-rng_item l1.rng_item (prepared-IsSkipList inv fresh lev f0 others) in
      let p : ℕ → ℕ = λ j. last_or l.header (at h1.sz j (before l.cmp d xs)) in
      let same : (j : ℕ) → behind j ≡ p j = λ j. ap (last_or l.header) (
        sym (
          at-update h.sz x lev j (before l.cmp d xs)
            (has-pre (walkable inv fresh.holds) x fresh.out))) in
      let w = IsSkipList-Walkable inv1 fresh.holds in
      let full = update_self (update h.cap x 0) x lev in
      let (f, run, eq) =
        link_loop-Linked h1 {p = p} (λ j lt. all_set lev j lt ∙ ap some (same j))
          (λ j lt. cap-pred_at w j (omega arith)) (omega (arith, full))
          (pred_at-ne w x fresh.apart fresh.out) in
      let new : IsNew inv1 x lev d = record {
        apart = fresh.apart;
        out = fresh.out;
        holds = fresh.holds;
        full = full;
        sized = update_self h.sz x lev;
        pos = lev_pos;
        low = lev_max;
        fits = fits;
      } in
      (
        _,
        record h1 { next = f },
        rw
            (
              level_for-gen_level l given options drawn,
              drawn,
              ne→== lev 0 (omega arith),
              made,
              ◌>>=◌,
              level_for-gen_level l given options drawn,
              run,
              ◌>>=◌,
              raise-max l1 lev,
            )
            (count_in_lem (record l1 { curlevel = max l1.curlevel lev }) (record h1 { next = f }) x
              (omega (arith, full))),
        record {
          kept = IsNew-IsSkipList inv1 x lev d new f lev (omega arith) eq;
          level = update_self h.sz x lev;
          others = λ a out ne. record {
            next = λ j.
                ground (arith, eq j a, pred_at-ne w a (ground arith) (ground arith) j)
                ∙ others a j ne;
            cap = update_ne (update h.cap x 0) x lev ne ∙ update_ne h.cap x 0 ne;
            sz = update_ne h.sz x lev ne;
            val = refl;
          };
          vals = λ a. refl;
          sizes = λ a ne. update_ne h.sz x lev ne;
          stat = refl;
          avail = refl;
          same_cmp = refl;
          same_header = refl;
          same_dst = refl;
        },
      )

  -- If memory is refused, it reports that, and no node but the new one is touched.
  pub add_node_and_update_links-starved :
      h.avail h.stat.calls ≡ false
      → let l1 : SkipList D = (gen_level l).1 in
        (add_node_and_update_links l upd h x given options ≡ some (mem_exhausted, l1, starved h x))
        × IsSkipList (starved h x) l1 xs
  unfolding add_node_and_update_links gen_level
  add_node_and_update_links-starved no_room =
      let l1 = (gen_level l).1 in
      let lev = (gen_level l).0 in
      let (lev_pos, _, _) =
        gen_level_bounds l (omega (arith, inv.top, inv.fits, height_pos h.sz xs)) in
      (
        rw (
          level_for-gen_level l given options drawn,
          drawn,
          ne→== lev 0 (omega arith),
          new_node-starved l1 h x lev lev_pos no_room,
          ◌>>=◌,
          level_for-gen_level l given options drawn,
        ),
        starved-IsSkipList inv fresh,
      )
