-- ===== src/SkipList/Equal.antt =====
-- The cells that compare equal to a value stand together.
use myskl.Prelude.{
  ◌≡◌, refl, sym, ap, ◌∙◌, false, [], ◌∷◌, ◌++◌, Ordering, arith, if◌then◌else◌, All, Bool-cases,
  inl, inr, subst,
}
use myskl.SkipList.{is_lt, is_eq}
use myskl.SkipList.Cells.{
  Cells, IsOrder, Sorted, before, after, before-append-after, before-All, after-All,
}
use myskl.SkipList.Find.{contains, head_eq, none_equal}

module _ {D : Type 0} (cmp : D → D → Ordering) (d : D) where
  -- The cells that compare equal, in their order.
  abbrev pub equal_cells : Cells D → Cells D
  equal_cells [] = []
  equal_cells ((a, v) ∷ xs) = if is_eq (cmp v d) then (a, v) ∷ equal_cells xs else equal_cells xs

  equal_cells-append : (xs ys : Cells D) → equal_cells (xs ++ ys) ≡ equal_cells xs ++ equal_cells ys
  equal_cells-append [] ys = refl
  equal_cells-append ((a, v) ∷ xs) ys = ground (arith, equal_cells-append xs ys)

  equal_cells-nil : (xs : Cells D) → contains cmp d xs ≡ false → equal_cells xs ≡ []
  equal_cells-nil [] e = refl
  equal_cells-nil ((a, v) ∷ xs) e = ground (arith, equal_cells-nil xs)

  equal_cells-lt : (xs : Cells D) → All (λ c. cmp c.1 d ≡ Ordering.lt) xs → equal_cells xs ≡ []
  equal_cells-lt [] all = refl
  equal_cells-lt ((a, v) ∷ xs) all = ground (arith, equal_cells-lt xs)

  -- Among cells in order, none of them less, the equal ones come first.
  first_equal :
      IsOrder cmp
      → (vs : Cells D) → Sorted cmp vs
      → All (λ c. is_lt (cmp c.1 d) ≡ false) vs
      → (gs : Cells D) × (vs ≡ equal_cells vs ++ gs) × (head_eq cmp d gs ≡ false)
  first_equal ord [] s high = ([], refl, refl)
  first_equal ord ((a, v) ∷ vs) s high = elim (Bool-cases (is_eq (cmp v d))) [
    | inl same ↦
        let (gs, split, ends) = first_equal ord vs s.1 high.1 in
        (gs, rw same (ap (λ cs. (a, v) ∷ cs) split), ends)
    | inr other ↦
        let empty : equal_cells vs ≡ [] =
          equal_cells-nil vs (none_equal cmp d ord v vs (ground (arith, high.0)) s.0) in
        ((a, v) ∷ vs, rw (other, empty), other)
  ]

  Sorted-append_right : (us vs : Cells D) → Sorted cmp (us ++ vs) → Sorted cmp vs
  Sorted-append_right [] vs s = s
  Sorted-append_right (c ∷ us) vs s = Sorted-append_right us vs s.1

  -- The cells that are not less are the equal ones and then the others.
  pub after-equal_cells :
      IsOrder cmp
      → (xs : Cells D) → Sorted cmp xs
      → (gs : Cells D) × (after cmp d xs ≡ equal_cells xs ++ gs) × (head_eq cmp d gs ≡ false)
  after-equal_cells ord xs s =
      let split = before-append-after cmp d xs in
      let (gs, e, ends) =
        first_equal ord (after cmp d xs)
          (Sorted-append_right (before cmp d xs) (after cmp d xs)
            (subst (Sorted cmp) (sym split) s))
          (after-All cmp d ord xs s) in
      let whole : equal_cells xs ≡ equal_cells (after cmp d xs) =
        ap equal_cells (sym split)
        ∙ equal_cells-append (before cmp d xs) (after cmp d xs)
        ∙ ap (λ cs. cs ++ equal_cells (after cmp d xs))
            (equal_cells-lt (before cmp d xs) (before-All cmp d xs)) in
      (gs, e ∙ ap (λ cs. cs ++ gs) (sym whole), ends)
