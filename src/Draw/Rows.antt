-- ===== src/Draw/Rows.antt =====
-- src/skl_draw.c: what `drawList` prints on one level.
use myskl.Prelude.{
  ℕ, zero, suc, ◌+◌, ◌≤◌, ◌<◌, ◌≡◌, refl, ap, ◌∙◌, sym, Bool, true, false, some, List, [], ◌∷◌,
  ◌++◌, arith, ◌>>=◌, length, All, ==_self, if◌then◌else◌, ltb, Bool-cases, inl, inr, ◌⊎◌,
  append_assoc, All-append_left, All-append_right, length-append, subst,
}
use myskl.Heap.{Heap}
use myskl.Heap.Chain.{Chain, Distinct, Chain-drop, Distinct-append_right, Distinct-middle}
use myskl.Heap.Writes.{load-some}
use myskl.SkipList.{SkipList, null, rounds}
use myskl.SkipList.Cells.{Cells, addrs, at, at-append, addrs-append}
use myskl.Iter.{Iter}
use myskl.Iter.Traverse.{at_node}
use myskl.Draw.{Piece, link, dashes, arrow, datum, between, row_loop}
use myskl.Draw.Steps.{skips, IsDrawn, adjust_link-skips}
use myskl.Destroy.Freed.{length-addrs}

abbrev pub is_nil {ℓ} : {A : Type ℓ} → List A → Bool
is_nil [] = true
is_nil (x ∷ xs) = false

module _ {D : Type 0} (sz size : ℕ → ℕ) (j : ℕ) where
  -- The row of level `j`: an arrow and the data for each node of the level, and a line as long for
  -- each node that it passes by, up to the last node of the level.
  abbrev pub row : Cells D → List Piece
  row [] = []
  row ((a, v) ∷ xs) =
      if ltb j (sz a)
      then arrow ∷ datum a ∷ row xs
      else if is_nil (at sz j xs)
      then []
      else link ∷ dashes (size a) ++ row xs

  -- The first node of the level, behind the nodes that are not of it.
  pub record IsSplit (ys : Cells D) : Type 0 where
    pub passed : Cells D
    pub node : ℕ
    pub value : D
    pub rest : Cells D
    pub split : ys ≡ passed ++ (node, value) ∷ rest
    pub none : at sz j passed ≡ []
    pub on : ltb j (sz node) ≡ true

  pub find_node : (ys : Cells D) → ((at sz j ys ≡ []) × (row ys ≡ [])) ⊎ IsSplit ys
  find_node [] = inl (refl, refl)
  find_node ((a, v) ∷ ys) = elim (Bool-cases (ltb j (sz a))) [
    | inl e ↦
        inr (record {
          passed = [];
          node = a;
          value = v;
          rest = ys;
          split = refl;
          none = refl;
          on = e;
        })
    | inr e ↦ elim (find_node ys) [
      | inl none ↦ inl (rw (e, none.0) (refl, refl))
      | inr found ↦ inr (record {
        passed = (a, v) ∷ found.passed;
        node = found.node;
        value = found.value;
        rest = found.rest;
        split = ap (λ zs. (a, v) ∷ zs) found.split;
        none = rw e found.none;
        on = found.on;
      })
    ]
  ]

  pub row-append :
      (us : Cells D) (b : ℕ) (v : D) (vs : Cells D)
      → at sz j us ≡ []
      → ltb j (sz b) ≡ true
      → row (us ++ (b, v) ∷ vs) ≡ skips size (addrs us) ++ arrow ∷ datum b ∷ row vs
  row-append [] b v vs none on = rw on refl
  row-append ((a, w) ∷ us) b v vs none on = elim (Bool-cases (ltb j (sz a))) [
    | inl e ↦ absurd (ground arith)
    | inr e ↦
        let none' : at sz j us ≡ [] = sym (rw e refl) ∙ none in
        rw (e, at-append sz j us ((b, v) ∷ vs), none', on, row-append us b v vs none' on)
          (sym (ap (λ ps. link ∷ ps) (append_assoc (dashes (size a)) _ _)))
  ]

All-addrs : {D : Type 0} (P : ℕ → Type 0) (xs : Cells D) → All (λ c. P c.0) xs → All P (addrs xs)
All-addrs P [] all = tt
All-addrs P ((a, v) ∷ xs) all = (all.0, All-addrs P xs all.1)

module _ {D : Type 0} (h : Heap D) (l : SkipList D) (size : ℕ → ℕ) where
  abbrev pub AllDrawn : Cells D → Type 0
  AllDrawn ys = All (λ c. IsDrawn h l.header c.0) ys

  row_loop-end :
      (lev fuel x : ℕ) (iter1 iter2 : Iter)
      → lev < h.cap x
      → h.next x lev ≡ l.header
      → row_loop h size l lev (suc fuel) x iter1 iter2 ≡ some []
  unfolding row_loop
  row_loop-end lev fuel x iter1 iter2 wide e =
      rw (row_loop, load-some h x lev wide, ◌>>=◌, e, ==_self l.header) refl

  -- Level 1 needs no iterator.
  pub row_loop-first :
      (ys : Cells D) (fuel x : ℕ) (iter1 iter2 : Iter)
      → length ys < fuel
      → 0 < h.cap x
      → Chain h.next l.header 0 x (addrs ys)
      → AllDrawn ys
      → row_loop h size l 0 fuel x iter1 iter2 ≡ some (row h.sz size 0 ys)
  unfolding row_loop between
  row_loop-first ys zero x iter1 iter2 short wide chain drawn = absurd (omega arith)
  row_loop-first [] (suc fuel) x iter1 iter2 short wide chain drawn =
      row_loop-end 0 fuel x iter1 iter2 wide chain
  row_loop-first ((a, v) ∷ ys) (suc fuel) x iter1 iter2 short wide chain drawn =
      let on : ltb 0 (h.sz a) ≡ true = ground (arith, drawn.0.high) in
      rw
        (
          row_loop,
          load-some h x 0 wide,
          ◌>>=◌,
          chain.0,
          drawn.0.inside,
          on,
          row_loop-first ys fuel a iter1 iter2 (omega arith)
              (omega (arith, drawn.0.wide, drawn.0.high)) chain.1 drawn.1,
          ◌>>=◌,
        )
        refl

  -- Node `x` of level `lev`, in front of the cells `ys`
  pub record IsBefore (lev x : ℕ) (ys : Cells D) : Type 0 where
    pub fits : length ys + 1 ≤ rounds l
    pub wide : lev < h.cap x
    pub above : Chain h.next l.header lev x (at h.sz lev ys)
    pub chain : Chain h.next l.header 0 x (addrs ys)
    pub distinct : Distinct (addrs ys)
    pub drawn : AllDrawn ys

  module _ (lev x : ℕ) (us : Cells D) (b : ℕ) (v : D) (vs : Cells D)
      (ready : IsBefore lev x (us ++ (b, v) ∷ vs)) where
    there : IsDrawn h l.header b
    there = (All-append_right _ us ((b, v) ∷ vs) ready.drawn).0

    Chain-split : Chain h.next l.header 0 x (addrs us ++ b ∷ addrs vs)
    Chain-split = subst (Chain h.next l.header 0 x) (addrs-append us ((b, v) ∷ vs)) ready.chain

    Distinct-split : Distinct (addrs us ++ b ∷ addrs vs)
    Distinct-split = subst Distinct (addrs-append us ((b, v) ∷ vs)) ready.distinct

    module _ (none : at h.sz lev us ≡ []) (on : ltb lev (h.sz b) ≡ true) where
      at_split : at h.sz lev (us ++ (b, v) ∷ vs) ≡ b ∷ at h.sz lev vs
      at_split = rw (at-append h.sz lev us ((b, v) ∷ vs), none, on) refl

      above_split : Chain h.next l.header lev x (b ∷ at h.sz lev vs)
      above_split = subst (Chain h.next l.header lev x) at_split ready.above

      next-IsBefore : IsBefore lev b vs
      next-IsBefore = record {
        fits = omega (arith, ready.fits, length-append us ((b, v) ∷ vs));
        wide = ground (arith, there.wide);
        above = above_split.1;
        chain = (Chain-drop h.next l.header 0 x (addrs us) (b ∷ addrs vs) Chain-split).1;
        distinct = (Distinct-append_right (addrs us) (b ∷ addrs vs) Distinct-split).1;
        drawn = (All-append_right _ us ((b, v) ∷ vs) ready.drawn).1;
      }

  row_loop-found :
      (lev x : ℕ) (us : Cells D) (b : ℕ) (v : D) (vs : Cells D)
      (ready : IsBefore (suc lev) x (us ++ (b, v) ∷ vs)) (none : at h.sz (suc lev) us ≡ [])
      (on : ltb (suc lev) (h.sz b) ≡ true) (fuel level : ℕ)
      → row_loop h size l
          (suc lev)
          fuel
          b
          (at_node l.header null b (h.sz b))
          (at_node l.header null b (h.sz b))
        ≡ some (row h.sz size (suc lev) vs)
      → row_loop h size l
          (suc lev)
          (suc fuel)
          x
          (at_node l.header null x level)
          (at_node l.header null x level)
        ≡ some (row h.sz size (suc lev) (us ++ (b, v) ∷ vs))
  unfolding row_loop between
  row_loop-found lev x us b v vs ready none on fuel level rest =
      let step = (above_split (suc lev) x us b v vs ready none on).0 in
      let there' = there (suc lev) x us b v vs ready in
      let linked =
        adjust_link-skips h l.header size (suc lev) x level (addrs us) b (addrs vs) (rounds l)
          (omega (arith, ready.fits, length-append us ((b, v) ∷ vs), length-addrs us)) ready.wide
          step (Chain-split (suc lev) x us b v vs ready)
          (All-addrs (IsDrawn h l.header) us (All-append_left _ us ((b, v) ∷ vs) ready.drawn))
          there'
          (ground (
            arith,
            Distinct-middle b (addrs us) (addrs vs) (Distinct-split (suc lev) x us b v vs ready),
          )) in
      rw
        (
          row_loop,
          load-some h x (suc lev) ready.wide,
          ◌>>=◌,
          step,
          there'.inside,
          linked,
          ◌>>=◌,
          rest,
          ◌>>=◌,
          row-append h.sz size (suc lev) us b v vs none on,
        )
        refl

  -- On a higher level the iterators stand at the node itself.
  pub row_loop-higher :
      (lev : ℕ) (ys : Cells D) (fuel x level : ℕ)
      → length ys < fuel
      → IsBefore (suc lev) x ys
      → row_loop h size l
          (suc lev)
          fuel
          x
          (at_node l.header null x level)
          (at_node l.header null x level)
        ≡ some (row h.sz size (suc lev) ys)
  unfolding row_loop between
  row_loop-higher lev ys zero x level short ready = absurd (omega arith)
  row_loop-higher lev ys (suc fuel) x level short ready = elim (find_node h.sz size (suc lev) ys) [
    | inl none ↦
        row_loop-end (suc lev) fuel x _ _ ready.wide
          (subst (Chain h.next l.header (suc lev) x) none.0 ready.above)
        ∙ ap some (sym none.1)
    | inr found ↦
        let ready' = subst (IsBefore (suc lev) x) found.split ready in
        let next =
          next-IsBefore (suc lev) x found.passed found.node found.value found.rest ready' found.none
            found.on in
        let shorter : length found.rest < fuel = omega (
          arith,
          ap length found.split,
          length-append found.passed ((found.node, found.value) ∷ found.rest),
        ) in
        row_loop-found lev x found.passed found.node found.value found.rest ready' found.none
          found.on fuel level
          (row_loop-higher lev found.rest fuel found.node (h.sz found.node) shorter next)
        ∙ ap (λ zs. some (row h.sz size (suc lev) zs)) (sym found.split)
  ]
