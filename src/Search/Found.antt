-- ===== src/Search/Found.antt =====
-- `MySKLsearch` of src/skl_search.c: the descent that tests a node on each level.
use myskl.Prelude.{
  ℕ, zero, suc, ◌≤◌, ◌<◌, ◌≡◌, ◌≢◌, refl, ap, ◌∙◌, true, false, some, [], ◌∷◌, arith, ◌>>=◌, ◌==◌,
  ◌⊎◌, inl, inr, All, All-mono, ne→==, ==_self, Bool-cases, ltb,
}
use myskl.Heap.{Heap, load}
use myskl.Heap.Chain.{has, has-append, head_or, Chain-drop, Chain-head_or}
use myskl.Heap.Writes.{load-some}
use myskl.SkipList.{SkipList, key_found, key_not_found, null, is_eq, eq, matches}
use myskl.SkipList.Cells.{
  Cells, addrs, at, at_zero, height_pos, before, before-append-after, addrs-append,
}
use myskl.SkipList.Invariant.{IsNode, IsSkipList}
use myskl.SkipList.Guards.{verify_list-true}
use myskl.SkipList.Place.{walk-pred_at, pred_at, cap-pred_at, Chain-split, header-last_or}
use myskl.SkipList.Find.{contains, contains-length, contains-append}
use myskl.SkipList.Descent.{walkable, rest, rest_nodes, rest_out, matches-contains}
use myskl.Search.{search_loop, search_node, search_list}

-- Node `y` is one of the cells, and its data compares equal to `d`.
pub record IsFound {D : Type 0} (h : Heap D) (l : SkipList D) (xs : Cells D) (d : D) (y : ℕ)
    : Type 0 where
  pub v : D
  pub holds : h.val y ≡ some v
  pub listed : has y (addrs xs) ≡ true
  pub same : is_eq (l.cmp v d) ≡ true

module _ {D : Type 0} {h : Heap D} {l : SkipList D} {xs : Cells D} {n : ℕ} {d : D}
    (inv : IsSkipList h l xs) (target : h.val n ≡ some d) where
  -- The node behind the end of the walk on level `i`.
  abbrev next_at : ℕ → ℕ
  next_at i = head_or l.header (at h.sz i (rest inv target))

  load-next_at :
      (i : ℕ) → i < l.maxlevel → load h (pred_at (walkable inv target) i) i ≡ some (next_at i)
  load-next_at i lt =
      let w = walkable inv target in
      load-some h (pred_at w i) i (cap-pred_at w i lt)
      ∙ ap some (
          Chain-head_or h.next l.header i (pred_at w i) (at h.sz i (rest inv target)) (
            Chain-drop h.next l.header i l.header (at h.sz i (before l.cmp d xs))
              (at h.sz i (rest inv target)) (Chain-split w i lt)))

  IsFound-cons :
      (a : ℕ) (v : D) (vs : Cells D) {y : ℕ} → IsFound h l vs d y → IsFound h l ((a, v) ∷ vs) d y
  IsFound-cons a v vs f = record {
    v = f.v;
    holds = f.holds;
    listed = ground (arith, f.listed);
    same = f.same;
  }

  -- The test on a level succeeds only at one of the cells.
  matches-at :
      (i : ℕ) (vs : Cells D)
      → All (λ c. IsNode h l.curlevel c.0 c.1) vs
      → All (λ c. c.0 ≢ l.header) vs
      → let y = head_or l.header (at h.sz i vs) in
        ((matches l h y n ≡ some true) × IsFound h l vs d y × (contains l.cmp d vs ≡ true))
        ⊎ (matches l h y n ≡ some false)
  unfolding matches eq
  matches-at i [] nodes out = inr (rw (==_self l.header))
  matches-at i ((a, v) ∷ vs) nodes out = elim (Bool-cases (ltb i (h.sz a))) [
    | inl on ↦ elim (Bool-cases (is_eq (l.cmp v d))) [
      | inl same ↦ inl (
        rw (on, ne→== a l.header out.0, nodes.0.holds, ◌>>=◌, target, ◌>>=◌, same),
        rw on (record { v = v; holds = nodes.0.holds; listed = ground arith; same = same }),
        rw same,
      )
      | inr other ↦
          inr (rw (on, ne→== a l.header out.0, nodes.0.holds, ◌>>=◌, target, ◌>>=◌, other))
    ]
    | inr off ↦ elim (matches-at i vs nodes.1 out.1) [
      | inl (run, found, some_cell) ↦
          inl (rw off run, rw off (IsFound-cons a v vs found), ground arith)
      | inr run ↦ inr (rw off run)
    ]
  ]

  IsFound-in_list : {y : ℕ} → IsFound h l (rest inv target) d y → IsFound h l xs d y
  IsFound-in_list {y} f = record {
    v = f.v;
    holds = f.holds;
    listed = ground (
      arith,
      f.listed,
      ap (λ z. has y (addrs z)) (before-append-after l.cmp d xs),
      ap (has y) (addrs-append (before l.cmp d xs) (rest inv target)),
      has-append y (addrs (before l.cmp d xs)) (addrs (rest inv target)),
    );
    same = f.same;
  }

  matches-bottom : matches l h (next_at 0) n ≡ some (contains l.cmp d xs)
  matches-bottom =
      ap (λ ys. matches l h (head_or l.header ys) n)
        (at_zero h.sz (rest inv target) (All-mono _ _ (λ c p. p.pos) _ (rest_nodes inv target)))
      ∙ matches-contains inv target

  bottom_missing :
      (i : ℕ)
      → matches l h (next_at i) n ≡ some false
      → (1 ≤ i → contains l.cmp d xs ≡ false)
      → contains l.cmp d xs ≡ false
  bottom_missing zero run above = ground (arith, matches-bottom)
  bottom_missing (suc i) run above = above (omega arith)

  contains-rest : contains l.cmp d (rest inv target) ≡ true → contains l.cmp d xs ≡ true
  contains-rest e = ground (
    arith,
    ap (contains l.cmp d) (before-append-after l.cmp d xs),
    contains-append l.cmp d (before l.cmp d xs) (rest inv target),
  )

  search_loop_lem :
      (i : ℕ)
      → i ≤ l.maxlevel
      → (x : ℕ) → x ≡ pred_at (walkable inv target) i
      → ((y : ℕ) × (search_loop l h n i x ≡ some y)
          × IsFound h l xs d y
          × (contains l.cmp d xs ≡ true))
        ⊎ ((search_loop l h n i x ≡ some null) × (1 ≤ i → contains l.cmp d xs ≡ false))
  unfolding search_loop
  search_loop_lem zero le x e = inr (refl, λ pos. absurd (omega arith))
  search_loop_lem (suc i) le x e =
      let w = walkable inv target in
      let walked = walk-pred_at w i (omega arith) x (e ∙ ap (pred_at w) (omega arith)) in
      let seen = load-next_at i (omega arith) in
      elim (matches-at i (rest inv target) (rest_nodes inv target) (rest_out inv target)) [
        | inl (run, found, some_cell) ↦ inl (
          next_at i,
          rw (walked, ◌>>=◌, seen, ◌>>=◌, run),
          IsFound-in_list found,
          contains-rest some_cell,
        )
        | inr run ↦ elim (search_loop_lem i (omega arith) (pred_at w i) refl) [
          | inl found ↦
              inl (found.0, rw (walked, ◌>>=◌, seen, ◌>>=◌, run, ◌>>=◌) found.1, found.2, found.3)
          | inr (run', missing) ↦ inr (
            rw (walked, ◌>>=◌, seen, ◌>>=◌, run, ◌>>=◌) run',
            λ pos. bottom_missing i run missing,
          )
        ]
      ]

  search_node_lem :
      ((y : ℕ) × (search_node l h n ≡ some y) × IsFound h l xs d y × (contains l.cmp d xs ≡ true))
      ⊎ ((search_node l h n ≡ some null) × (1 ≤ l.curlevel → contains l.cmp d xs ≡ false))
  unfolding search_node
  search_node_lem =
      search_loop_lem l.curlevel inv.fits l.header (header-last_or inv d l.curlevel (omega arith))

  level_pos : 1 ≤ l.curlevel
  level_pos = omega (arith, inv.top, height_pos h.sz xs)

  -- If some node of a well-formed list compares equal to the data of the given node, and no
  -- node of the list is NULL, `MySKLsearch` reports MYSKL_KEY_FOUND together with a node of the
  -- list that compares equal.
  pub search_list-IsFound :
      contains l.cmp d xs ≡ true
      → has null (addrs xs) ≡ false
      → (y : ℕ) × (search_list (some l) h n ≡ some (key_found, some y)) × IsFound h l xs d y
  unfolding search_list
  search_list-IsFound some_cell apart =
      let filled : (l.nodenum == 0) ≡ false =
        ground (arith, contains-length l.cmp d xs some_cell, inv.count) in
      elim search_node_lem [
        | inl (y, run, found, _) ↦
            let ne : (y == null) ≡ false = ground (arith, found.listed) in
            (y, rw (verify_list-true inv, filled, run, ◌>>=◌, ne), found)
        | inr (run, missing) ↦ absurd (ground (arith, missing level_pos))
      ]

  -- If no node of a well-formed list compares equal to the data of the given node,
  -- `MySKLsearch` reports MYSKL_KEY_NOT_FOUND and sets the result to NULL.
  pub search_list-missing :
      contains l.cmp d xs ≡ false → search_list (some l) h n ≡ some (key_not_found, some null)
  unfolding search_list
  search_list-missing missing = elim (Bool-cases (l.nodenum == 0)) [
    | inl empty ↦ rw (verify_list-true inv, empty, ◌>>=◌)
    | inr filled ↦ elim search_node_lem [
      | inl (y, run, found, some_cell) ↦ absurd (ground arith)
      | inr (run, _) ↦ rw (verify_list-true inv, filled, run, ◌>>=◌)
    ]
  ]
