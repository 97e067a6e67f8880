-- ===== src/Join/Adds.antt =====
-- What a loop of src/skl_join.c or `MySKLcopy` does with one copy, told apart by its outcome.
use myskl.Prelude.{
  ℕ, ◌+◌, ◌^◌, ◌<◌, ◌≡◌, refl, ◌∙◌, Bool, true, false, ◌&&◌, Option, some, ◌⊎◌, inl, inr,
  Bool-cases, length,
}
use myskl.Heap.{Heap}
use myskl.SkipList.{
  SkipList, Outcome, status_ok, mem_exhausted, duplicate_key, ad_mode, nd_mode, has_mode, cp_mode,
}
use myskl.SkipList.Cells.{Cells}
use myskl.SkipList.Invariant.{IsSkipList}
use myskl.SkipList.Find.{contains}
use myskl.SkipList.Descent.{walkable}
use myskl.Gen.{gen_level}
use myskl.Insert.{insert_plain}
use myskl.Insert.Nodes.{starved}
use myskl.Insert.Plain.{IsFresh, Inserted, insert_plain-Inserted, insert_plain-starved}
use myskl.Upsert.{insert_i, add_node_and_update_links}
use myskl.Upsert.Added.{add_node_and_update_links-Inserted, add_node_and_update_links-starved}
use myskl.Upsert.Public.{insert_i-missing, insert_i-ad, insert_i-known}
use myskl.SkipList.Place.{pred_at}

-- The mode in which duplicates are refused if `nd` tells so.
abbrev pub mode_of : Bool → ℕ
mode_of true = nd_mode
mode_of false = ad_mode

module _ {D : Type 0} (nd : Bool) (h : Heap D) (l : SkipList D) (ys : Cells D) (x : ℕ) (d : D)
    (run : Option (Outcome D)) where
  abbrev pub IsKnown : Type 0
  IsKnown = ((nd && contains l.cmp d ys) ≡ true) × (run ≡ some (duplicate_key, l, h))

  abbrev pub IsStarved : Type 0
  IsStarved =
      ((nd && contains l.cmp d ys) ≡ false)
      × (h.avail h.stat.calls ≡ false)
      × (run ≡ some (mem_exhausted, (gen_level l).1, starved h x))
      × IsSkipList (starved h x) (gen_level l).1 ys

  abbrev pub IsAdded : Type 0
  IsAdded =
      ((nd && contains l.cmp d ys) ≡ false)
      × (l' : SkipList D) × (h' : Heap D) × (run ≡ some (status_ok, l', h'))
      × Inserted h l ys x d h' l'

  abbrev pub Adds : Type 0
  Adds = IsKnown ⊎ IsStarved ⊎ IsAdded

no_copy : (nd : Bool) → has_mode (mode_of nd) cp_mode ≡ false
no_copy true = refl
no_copy false = refl

module _ {D : Type 0} {h : Heap D} {l : SkipList D} {ys : Cells D} {x : ℕ} {d : D}
    (inv : IsSkipList h l ys) (fresh : IsFresh h l ys x d) (fits : length ys + 1 < 2 ^ 32) where
  pub insert_plain-Adds :
      (given options : ℕ)
      → has_mode options cp_mode ≡ false
      → Adds false h l ys x d (insert_plain l h x given options)
  insert_plain-Adds given options drawn = elim (Bool-cases (h.avail h.stat.calls)) [
    | inl room ↦
        let (l', h', run, ins) = insert_plain-Inserted inv fresh given options drawn fits room in
        inr (inr (refl, l', h', run, ins))
    | inr no_room ↦
        let (run, kept) = insert_plain-starved inv fresh given options drawn no_room in
        inr (inl (refl, no_room, run, kept))
  ]

  -- With the array of the descent, whichever mode has led there.
  linked :
      (nd : Bool) (updfunc : D → D → D)
      → (nd && contains l.cmp d ys) ≡ false
      → (upd : ℕ → Option ℕ)
      → ((j : ℕ) → j < l.curlevel → upd j ≡ some (pred_at (walkable inv fresh.holds) j))
      → insert_i l h x updfunc 0 (mode_of nd) ≡ add_node_and_update_links l upd h x 0 (mode_of nd)
      → Adds nd h l ys x d (insert_i l h x updfunc 0 (mode_of nd))
  linked nd updfunc new upd set run =
      let drawn : has_mode (mode_of nd) cp_mode ≡ false = no_copy nd in
      elim (Bool-cases (h.avail h.stat.calls)) [
        | inl room ↦
            let (l', h', done, ins) =
              add_node_and_update_links-Inserted inv fresh upd set 0 (mode_of nd) drawn fits room in
            inr (inr (new, l', h', run ∙ done, ins))
        | inr no_room ↦
            let (done, kept) =
              add_node_and_update_links-starved inv fresh upd set 0 (mode_of nd) drawn no_room in
            inr (inl (new, no_room, run ∙ done, kept))
      ]

  pub insert_i-Adds :
      (nd : Bool) (updfunc : D → D → D) → Adds nd h l ys x d (insert_i l h x updfunc 0 (mode_of nd))
  insert_i-Adds false updfunc =
      let (upd, set, run) = insert_i-ad inv fresh updfunc 0 in linked false updfunc refl upd set run
  insert_i-Adds true updfunc = elim (Bool-cases (contains l.cmp d ys)) [
    | inl known ↦ inl (known, insert_i-known inv fresh.holds updfunc known)
    | inr missing ↦
        let (upd, set, run) = insert_i-missing inv fresh missing updfunc 0 nd_mode in
        linked true updfunc missing upd set run
  ]
