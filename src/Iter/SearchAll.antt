-- ===== src/Iter/SearchAll.antt =====
-- `MySKLsearchALL` of src/skl_search.c, and the client's loop over its iterator.
use myskl.Prelude.{
  ℕ, suc, ◌+◌, ◌<◌, ◌≡◌, refl, sym, ap, ◌∙◌, subst, Bool, true, false, ◌||◌, Option, some, none,
  List, [], ◌∷◌, ◌++◌, arith, ◌>>=◌, length, All, All-append_left, ◌==◌, Bool-cases, inl, inr,
  if◌then◌else◌, length-append,
}
use myskl.Heap.{Heap}
use myskl.Heap.Chain.{has, has-append, Chain, Distinct, head_or, Distinct-append_right}
use myskl.SkipList.{Status, SkipList, null, key_found, key_not_found, is_eq, verify_list}
use myskl.SkipList.Cells.{Cells, addrs, addrs-append, before, before-append-after, All-ne}
use myskl.SkipList.Invariant.{IsSkipList}
use myskl.SkipList.Guards.{verify_list-true, maxlevel_pos}
use myskl.SkipList.Frame.{IsSkipList-frame}
use myskl.SkipList.Place.{pred_at, cap-pred_at}
use myskl.SkipList.Find.{contains, contains-length, head_eq, head_eq-after}
use myskl.SkipList.Equal.{equal_cells, after-equal_cells}
use myskl.SkipList.Descent.{walkable, rest, rest_nodes, rest_out, Chain-rest}
use myskl.Iter.{
  Iter, search_all, set_dup_iterator, search_list_all, get_next_node, some_sanity_checks, get_next,
}
use myskl.Iter.Traverse.{stops, traverse, traverse-Chain}
use myskl.Destroy.Freed.{length-addrs}
use myskl.Init.Empty.{given_block, alloc-given}
use myskl.Iter.EqualRun.{equal_cells-same, taken, search_all-some, search_all-none}

-- The iterator that is set from what the search has found.
abbrev set_from : {D : Type 0} → SkipList D → Option (ℕ × ℕ) → Iter
set_from l none = set_dup_iterator l none null
set_from l (some ends) = set_dup_iterator l (some ends.0) ends.1

-- What `MySKLsearchALL` returns for what `searchAll` has found.
abbrev reported :
    {D : Type 0} → Heap D → SkipList D → Option (ℕ × ℕ) → Status × Option Iter × Heap D
reported h l none = (key_not_found, some (set_dup_iterator l none null), h)
reported h l (some ends) = (key_found, some (set_dup_iterator l (some ends.0) ends.1), h)

abbrev is_some : {A : Type 0} → Option A → Bool
is_some none = false
is_some (some a) = true

stops_head :
    (header : ℕ) (ns : List ℕ)
    → has null ns ≡ false
    → stops header (head_or header ns) (head_or header ns) ≡ true
stops_head header [] real = ground arith
stops_head header (a ∷ ns) real = ground arith

module _ {D : Type 0} {h : Heap D} {l : SkipList D} {xs : Cells D} {n : ℕ} {d : D}
    (inv : IsSkipList h l xs) (target : h.val n ≡ some d) where
  traverse-found :
      (y : ℕ) (v : D) (es gs : Cells D)
      → rest inv target ≡ (y, v) ∷ es ++ gs
      → has null (addrs xs) ≡ false
      → traverse h (length xs + 1) (
          set_dup_iterator l (some (pred_at (walkable inv target) 0)) (head_or l.header (addrs gs)))
        ≡ some (addrs ((y, v) ∷ es))
  unfolding set_dup_iterator
  traverse-found y v es gs split real =
      let w = walkable inv target in
      let es' : Cells D = (y, v) ∷ es in
      let whole : addrs xs ≡ addrs (before l.cmp d xs) ++ addrs (rest inv target) =
        ap addrs (sym (before-append-after l.cmp d xs))
        ∙ addrs-append (before l.cmp d xs) (rest inv target) in
      let parts : addrs (rest inv target) ≡ addrs es' ++ addrs gs =
        ap addrs split ∙ addrs-append es' gs in
      let distinct : Distinct (addrs es' ++ addrs gs) = subst Distinct parts (
        Distinct-append_right (addrs (before l.cmp d xs)) (addrs (rest inv target))
          (subst Distinct whole inv.apart.1)) in
      let real_parts : (has null (addrs es') || has null (addrs gs)) ≡ false = ground (
        arith,
        ap (has null) whole,
        has-append null (addrs (before l.cmp d xs)) (addrs (rest inv target)),
        ap (has null) parts,
        has-append null (addrs es') (addrs gs),
      ) in
      let short : length (addrs es') < length xs + 1 = omega (
        arith,
        ap length whole,
        ap length parts,
        length-append (addrs es') (addrs gs),
        length-append (addrs (before l.cmp d xs)) (addrs (rest inv target)),
        length-addrs xs,
      ) in
      traverse-Chain h l.header (head_or l.header (addrs gs)) (addrs es') (addrs gs) (length xs + 1)
        short (pred_at w 0) 1 (omega arith) (cap-pred_at w 0 (maxlevel_pos inv))
        (subst (Chain h.next l.header 0 (pred_at w 0)) parts (Chain-rest inv target))
        (stops_head l.header (addrs gs) (ground arith))
        (taken inv target es' gs distinct
          (All-append_left _ es' gs (subst (All _) split (rest_nodes inv target)))
          (All-append_left _ es' gs (subst (All _) split (rest_out inv target)))
          (All-ne null es' (ground arith)))

  traverse-none : traverse h (length xs + 1) (set_dup_iterator l none null) ≡ some []
  unfolding set_dup_iterator traverse get_next_node some_sanity_checks get_next
  traverse-none =
      let enough : length xs + 1 ≡ suc (length xs) = omega arith in
      ap (λ k. traverse h k (set_dup_iterator l none null)) enough

  search_all_lem :
      (es gs : Cells D)
      → rest inv target ≡ es ++ gs
      → All (λ c. is_eq (l.cmp c.1 d) ≡ true) es
      → head_eq l.cmp d gs ≡ false
      → has null (addrs xs) ≡ false
      → (found : Option (ℕ × ℕ)) × (search_all l h n ≡ some found)
        × (is_some found ≡ contains l.cmp d xs)
        × (traverse h (length xs + 1) (set_from l found) ≡ some (addrs es))
  search_all_lem [] gs split same ends real =
      let missing : contains l.cmp d xs ≡ false =
        sym (head_eq-after l.cmp d inv.order xs inv.sorted) ∙ ap (head_eq l.cmp d) split ∙ ends in
      (none, search_all-none inv target missing, sym missing, traverse-none)
  search_all_lem ((y, v) ∷ es) gs split same ends real =
      let known : contains l.cmp d xs ≡ true =
        sym (head_eq-after l.cmp d inv.order xs inv.sorted) ∙ ap (head_eq l.cmp d) split ∙ same.0 in
      (
        _,
        search_all-some inv target y v es gs split same ends,
        sym known,
        traverse-found y v es gs split real,
      )

  guarded :
      (found : Option (ℕ × ℕ))
      → search_all l h n ≡ some found
      → is_some found ≡ contains l.cmp d xs
      → (if l.nodenum == 0 then some none else search_all l h n) ≡ some found
  guarded none run known = elim (Bool-cases (l.nodenum == 0)) [
    | inl empty ↦ rw empty refl
    | inr filled ↦ rw filled run
  ]
  guarded (some ends) run known =
      let filled : (l.nodenum == 0) ≡ false =
        ground (arith, contains-length l.cmp d xs (sym known), inv.count) in
      rw filled run

  reported_lem :
      (found : Option (ℕ × ℕ))
      → is_some found ≡ contains l.cmp d xs
      → reported h l found
        ≡ (if contains l.cmp d xs then key_found else key_not_found, some (set_from l found), h)
  reported_lem none known = rw (sym known)
  reported_lem (some ends) known = rw (sym known)

search_list_all-run :
    {D : Type 0} (h : Heap D) (l : SkipList D) (n : ℕ)
    → verify_list l ≡ true
    → h.avail h.stat.calls ≡ true
    → (found : Option (ℕ × ℕ))
    → (if l.nodenum == 0 then some none else search_all l (given_block h) n) ≡ some found
    → search_list_all (some l) h n ≡ some (reported (given_block h) l found)
unfolding search_list_all
search_list_all-run h l n gate room none run =
    rw (gate, alloc-given h room, run, ◌>>=◌, alloc-given h room)
search_list_all-run h l n gate room (some ends) run =
    rw (gate, alloc-given h room, run, ◌>>=◌, alloc-given h room)

module _ {D : Type 0} {h : Heap D} {l : SkipList D} {xs : Cells D} {n : ℕ} {d : D}
    (inv : IsSkipList h l xs) (target : h.val n ≡ some d) where
  -- On a well-formed list none of whose nodes is NULL, given memory for the iterator,
  -- `MySKLsearchALL` ends, reports MYSKL_KEY_FOUND if some node compares equal to the data of the
  -- given node and MYSKL_KEY_NOT_FOUND if none does, and sets an iterator from which
  -- `MySKLgetNextNode` on level 1 returns just the nodes that compare equal, in the order of the
  -- list, and then NULL. The list is unchanged, and one block has been allocated.
  pub search_list_all-equal_cells :
      has null (addrs xs) ≡ false
      → h.avail h.stat.calls ≡ true
      → let h' = given_block h in
        (iter : Iter) × (search_list_all (some l) h n
          ≡ some (if contains l.cmp d xs then key_found else key_not_found, some iter, h'))
        × (traverse h' (length xs + 1) iter ≡ some (addrs (equal_cells l.cmp d xs)))
        × IsSkipList h' l xs
  unfolding search_list_all
  search_list_all-equal_cells real room =
      let h' = given_block h in
      let inv' : IsSkipList h' l xs =
        IsSkipList-frame h' (λ a e. record { next = λ j. refl; cap = refl; sz = refl; val = refl })
          inv in
      let (gs, split, ends) = after-equal_cells l.cmp d inv.order xs inv.sorted in
      let (found, run, known, way) =
        search_all_lem inv' target (equal_cells l.cmp d xs) gs split
          (equal_cells-same inv' target xs) ends real in
      (
        set_from l found,
        search_list_all-run h l n (verify_list-true inv) room found
              (guarded inv' target found run known)
            ∙ ap some (reported_lem inv' target found known),
        way,
        inv',
      )
