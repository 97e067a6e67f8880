-- ===== src/SkipList/Find.antt =====
-- Whether a cell compares equal to a value, told from the first cell that is not less.
use myskl.Prelude.{
  ℕ, ◌≡◌, ◌≢◌, refl, sym, ap, ◌∙◌, Bool, true, false, ◌||◌, [], ◌∷◌, ◌++◌, Ordering, arith,
  if◌then◌else◌, All, Bool-cases, inl, inr, length, ◌≤◌, Option, some, none, subst,
}
use myskl.SkipList.{is_eq}
use myskl.SkipList.Cells.{Cells, IsOrder, Sorted, before, after}

module _ {D : Type 0} (cmp : D → D → Ordering) (d : D) where
  abbrev pub contains : Cells D → Bool
  contains [] = false
  contains ((_, v) ∷ xs) = is_eq (cmp v d) || contains xs

  -- The specification of a deletion: the first cell that compares equal goes.
  abbrev pub erase_cell : Cells D → Cells D
  erase_cell [] = []
  erase_cell ((a, v) ∷ xs) = if is_eq (cmp v d) then xs else (a, v) ∷ erase_cell xs

  abbrev pub find_cell : Cells D → Option (ℕ × D)
  find_cell [] = none
  find_cell ((a, v) ∷ xs) = if is_eq (cmp v d) then some (a, v) else find_cell xs

  abbrev from_some : ℕ × D → Option (ℕ × D) → ℕ × D
  from_some c none = c
  from_some c (some c') = c'

  -- The cell that is found is one of the list's.
  pub find_cell-All :
      (P : ℕ × D → Type 0) (xs : Cells D) → All P xs → (c : ℕ × D) → find_cell xs ≡ some c → P c
  find_cell-All P [] all c e = cc
  find_cell-All P ((a, w) ∷ xs) all c e = elim (Bool-cases (is_eq (cmp w d))) [
    | inl same ↦ subst P (ap (from_some c) (rw same at e)) all.0
    | inr different ↦ find_cell-All P xs all.1 c (rw different at e)
  ]

  pub find_cell-contains :
      (xs : Cells D) (x : ℕ) (v : D) → find_cell xs ≡ some (x, v) → contains xs ≡ true
  find_cell-contains [] x v e = cc
  find_cell-contains ((a, w) ∷ xs) x v e = ground (arith, find_cell-contains xs x v)

  find_cell_of_after :
      (xs : Cells D) (x : ℕ) (v : D) (vs : Cells D)
      → after cmp d xs ≡ (x, v) ∷ vs
      → is_eq (cmp v d) ≡ true
      → find_cell xs ≡ some (x, v)
  find_cell_of_after [] x v vs e q = cc
  find_cell_of_after ((a, w) ∷ xs) x v vs e q = ground (arith, find_cell_of_after xs x v vs)

  abbrev pub head_eq : Cells D → Bool
  head_eq [] = false
  head_eq ((_, v) ∷ _) = is_eq (cmp v d)

  greater_lem :
      IsOrder cmp
      → (v w : D) → cmp v d ≡ Ordering.gt
      → cmp v w ≢ Ordering.gt
      → is_eq (cmp w d) ≡ false
  greater_lem ord v w h le = ground (arith, ord.le_trans v w d)

  pub none_equal :
      IsOrder cmp
      → (v : D) (xs : Cells D) → cmp v d ≡ Ordering.gt
      → All (λ c. cmp v c.1 ≢ Ordering.gt) xs
      → contains xs ≡ false
  none_equal ord v [] h all = refl
  none_equal ord v ((a, w) ∷ xs) h all =
      ground (arith, greater_lem ord v w h, none_equal ord v xs h, all.0, all.1)

  -- In a sorted list, the first cell that is not less decides.
  pub head_eq-after :
      IsOrder cmp → (xs : Cells D) → Sorted cmp xs → head_eq (after cmp d xs) ≡ contains xs
  head_eq-after ord [] s = refl
  head_eq-after ord ((a, v) ∷ xs) s =
      ground (arith, head_eq-after ord xs s.1, none_equal ord v xs, s.0)

  pub head_eq-cases :
      (xs : Cells D)
      → head_eq xs ≡ true
      → (x : ℕ) × (v : D) × (vs : Cells D) × (xs ≡ (x, v) ∷ vs) × (is_eq (cmp v d) ≡ true)
  head_eq-cases [] h = absurd (ground arith)
  head_eq-cases ((x, v) ∷ vs) h = (x, v, vs, refl, h)

  -- In a sorted list the cell that is found is the first that is not less.
  pub find_cell-after :
      IsOrder cmp
      → (xs : Cells D) → Sorted cmp xs
      → (x : ℕ) (v : D) → find_cell xs ≡ some (x, v)
      → (vs : Cells D) × (after cmp d xs ≡ (x, v) ∷ vs) × (is_eq (cmp v d) ≡ true)
  find_cell-after ord xs s x v e =
      let (x', v', vs, p, q) =
        head_eq-cases (after cmp d xs) (head_eq-after ord xs s ∙ find_cell-contains xs x v e) in
      let found = sym (find_cell_of_after xs x' v' vs p q) ∙ e in
      let same : ◌≡◌ {A = ℕ × D} (x', v') (x, v) = ap (from_some (x, v)) found in
      (vs, p ∙ ap (λ c. c ∷ vs) same, ap (λ c. is_eq (cmp c.1 d)) (sym same) ∙ q)

  pub erase_cell-split :
      (xs : Cells D) (x : ℕ) (v : D) (vs : Cells D)
      → after cmp d xs ≡ (x, v) ∷ vs
      → is_eq (cmp v d) ≡ true
      → erase_cell xs ≡ before cmp d xs ++ vs
  erase_cell-split [] x v vs e h = absurd (ground arith)
  erase_cell-split ((a, w) ∷ xs) x v vs e h = ground (arith, erase_cell-split xs x v vs)

  pub contains-length : (xs : Cells D) → contains xs ≡ true → 1 ≤ length xs
  contains-length [] h = absurd (ground arith)
  contains-length (c ∷ xs) h = omega arith

  pub contains-append : (xs ys : Cells D) → contains (xs ++ ys) ≡ contains xs || contains ys
  contains-append [] ys = refl
  contains-append (c ∷ xs) ys = ground (arith, contains-append xs ys)
