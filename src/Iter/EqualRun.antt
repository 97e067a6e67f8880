-- ===== src/Iter/EqualRun.antt =====
-- `searchAll` of src/skl_search.c: the run of the nodes that compare equal.
use myskl.Prelude.{
  ℕ, zero, suc, ◌<◌, ◌≡◌, ◌≢◌, ap, ◌∙◌, subst, true, false, some, none, List, [], ◌∷◌, ◌++◌, arith,
  ◌>>=◌, length, All, Bool-cases, inl, inr, length-append,
}
use myskl.Heap.{Heap, load}
use myskl.Heap.Chain.{has, has-append, Chain, Distinct, head_or, Chain-head_or}
use myskl.Heap.Writes.{load-some}
use myskl.SkipList.{SkipList, null, is_eq, rounds}
use myskl.SkipList.Cells.{Cells, addrs, before, after, before-append-after}
use myskl.SkipList.Invariant.{IsNode, IsSkipList}
use myskl.SkipList.Guards.{maxlevel_pos}
use myskl.SkipList.Place.{pred_at, walk-header}
use myskl.SkipList.Find.{contains, head_eq}
use myskl.SkipList.Equal.{equal_cells}
use myskl.SkipList.Descent.{
  walkable, rest, rest_nodes, rest_out, Chain-rest, load-pred_at, matches-head, matches-contains,
}
use myskl.Iter.{equal_run, search_all}
use myskl.Iter.Traverse.{IsTaken}

ne-head_or : (a d : ℕ) (ns : List ℕ) → a ≢ d → has a ns ≡ false → a ≢ head_or d ns
ne-head_or a d [] ne out = ne
ne-head_or a d (b ∷ ns) ne out = ground arith

module _ {D : Type 0} {h : Heap D} {l : SkipList D} {xs : Cells D} {n : ℕ} {d : D}
    (inv : IsSkipList h l xs) (target : h.val n ≡ some d) where
  -- The loop over the equal nodes ends at the last of them.
  equal_run-last :
      (es gs : Cells D) (fuel x : ℕ)
      → length es < fuel
      → 0 < h.cap x
      → Chain h.next l.header 0 x (addrs (es ++ gs))
      → All (λ c. IsNode h l.curlevel c.0 c.1) (es ++ gs)
      → All (λ c. c.0 ≢ l.header) (es ++ gs)
      → All (λ c. is_eq (l.cmp c.1 d) ≡ true) es
      → head_eq l.cmp d gs ≡ false
      → (last : ℕ) × (equal_run l h n fuel x ≡ some last)
        × (load h last 0 ≡ some (head_or l.header (addrs gs)))
  unfolding equal_run
  equal_run-last es gs zero x short wide chain nodes out same ends = absurd (omega arith)
  equal_run-last [] gs (suc fuel) x short wide chain nodes out same ends =
      let seen =
        load-some h x 0 wide ∙ ap some (Chain-head_or h.next l.header 0 x (addrs gs) chain) in
      (x, rw (equal_run, seen, ◌>>=◌, matches-head inv target gs nodes out, ◌>>=◌, ends), seen)
  equal_run-last ((a, v) ∷ es) gs (suc fuel) x short wide chain nodes out same ends =
      let all : Cells D = (a, v) ∷ es ++ gs in
      let (last, run, seen) =
        equal_run-last es gs fuel a (omega arith) (omega (arith, nodes.0.full, nodes.0.pos)) chain.1
          nodes.1 out.1 same.1 ends in
      (
        last,
        rw
            (
              equal_run,
              load-some h x 0 wide ∙ ap some chain.0,
              ◌>>=◌,
              matches-head inv target all nodes out,
              ◌>>=◌,
              same.0,
            )
            run,
        seen,
      )

  pub equal_cells-same :
      (ys : Cells D) → All (λ c. is_eq (l.cmp c.1 d) ≡ true) (equal_cells l.cmp d ys)
  equal_cells-same [] = tt
  equal_cells-same ((a, v) ∷ ys) = elim (Bool-cases (is_eq (l.cmp v d))) [
    | inl same ↦ rw same (same, equal_cells-same ys)
    | inr other ↦ rw other (equal_cells-same ys)
  ]

  pub taken :
      (es gs : Cells D)
      → Distinct (addrs es ++ addrs gs)
      → All (λ c. IsNode h l.curlevel c.0 c.1) es
      → All (λ c. c.0 ≢ l.header) es
      → All (λ c. c.0 ≢ null) es
      → All (IsTaken h l.header (head_or l.header (addrs gs))) (addrs es)
  taken [] gs distinct nodes out real = tt
  taken ((a, v) ∷ es) gs distinct nodes out real = (
    record {
      goes = ground (
        arith,
        out.0,
        ne-head_or a l.header (addrs gs) out.0
            (ground (arith, has-append a (addrs es) (addrs gs), distinct.0)),
      );
      real = real.0;
      wide = omega (arith, nodes.0.full, nodes.0.pos);
      high = nodes.0.pos;
    },
    taken es gs distinct.1 nodes.1 out.1 real.1,
  )

  pub search_all-some :
      (y : ℕ) (v : D) (es gs : Cells D)
      → rest inv target ≡ (y, v) ∷ es ++ gs
      → All (λ c. is_eq (l.cmp c.1 d) ≡ true) ((y, v) ∷ es)
      → head_eq l.cmp d gs ≡ false
      → search_all l h n
        ≡ some (some (pred_at (walkable inv target) 0, head_or l.header (addrs gs)))
  unfolding search_all
  search_all-some y v es gs split same ends =
      let w = walkable inv target in
      let chain =
        subst (λ ys. Chain h.next l.header 0 (pred_at w 0) (addrs ys)) split
          (Chain-rest inv target) in
      let nodes = subst (All _) split (rest_nodes inv target) in
      let out = subst (All _) split (rest_out inv target) in
      let head = load-pred_at inv target ∙ ap (λ ys. some (head_or l.header (addrs ys))) split in
      let short : length es < rounds l = omega (
        arith,
        inv.count,
        ap length split,
        length-append es gs,
        ap length (before-append-after l.cmp d xs),
        length-append (before l.cmp d xs) (after l.cmp d xs),
      ) in
      let (last, run, seen) =
        equal_run-last es gs (rounds l) y short (omega (arith, nodes.0.full, nodes.0.pos)) chain.1
          nodes.1 out.1 same.1 ends in
      rw (
        walk-header w 0 (maxlevel_pos inv),
        ◌>>=◌,
        head,
        ◌>>=◌,
        matches-head inv target ((y, v) ∷ es ++ gs) nodes out,
        ◌>>=◌,
        same.0,
        run,
        ◌>>=◌,
        seen,
        ◌>>=◌,
      )

  pub search_all-none : contains l.cmp d xs ≡ false → search_all l h n ≡ some none
  unfolding search_all
  search_all-none missing = rw (
    walk-header (walkable inv target) 0 (maxlevel_pos inv),
    ◌>>=◌,
    load-pred_at inv target,
    ◌>>=◌,
    matches-contains inv target,
    ◌>>=◌,
    missing,
  )
