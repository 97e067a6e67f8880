-- ===== src/SkipList/Common.antt =====
-- The cells of a list whose data stand in another list too, one of each kind: what `intersect` of
-- src/skl_join.c copies.
use myskl.Prelude.{
  ℕ, ◌≡◌, ◌≢◌, refl, sym, ap, ◌∙◌, true, false, [], ◌∷◌, Ordering, arith, if◌then◌else◌, All,
  All-mono, Bool-cases, inl, inr, length, ◌≤◌,
}
use myskl.SkipList.{is_eq}
use myskl.SkipList.Cells.{Cells, IsOrder, Sorted}
use myskl.SkipList.Find.{contains, none_equal}

module _ {D : Type 0} (cmp : D → D → Ordering) where
  abbrev pub without : D → Cells D → Cells D
  without v [] = []
  without v ((b, w) ∷ xs) = if is_eq (cmp w v) then without v xs else (b, w) ∷ without v xs

  -- The first of the cells that compare equal
  abbrev pub firsts : Cells D → Cells D
  firsts [] = []
  firsts ((a, v) ∷ xs) = (a, v) ∷ without v (firsts xs)

  abbrev pub shared : Cells D → Cells D → Cells D
  shared ys [] = []
  shared ys ((a, v) ∷ xs) = if contains cmp v ys then (a, v) ∷ shared ys xs else shared ys xs

  abbrev pub common : Cells D → Cells D → Cells D
  common xs ys = shared ys (firsts xs)

  -- The cells behind those that compare equal to `v` and to one another
  abbrev pub skip_cells : D → Cells D → Cells D
  skip_cells v [] = []
  skip_cells v ((b, w) ∷ xs) = if is_eq (cmp w v) then skip_cells w xs else (b, w) ∷ xs

  abbrev Above : D → Cells D → Type 0
  Above v xs = All (λ c. cmp c.1 v ≡ Ordering.gt) xs

  without-All : (P : ℕ × D → Type 0) (v : D) (xs : Cells D) → All P xs → All P (without v xs)
  without-All P v [] all = tt
  without-All P v ((b, w) ∷ xs) all = elim (Bool-cases (is_eq (cmp w v))) [
    | inl same ↦ rw same (without-All P v xs all.1)
    | inr other ↦ rw other (all.0, without-All P v xs all.1)
  ]

  firsts-All : (P : ℕ × D → Type 0) (xs : Cells D) → All P xs → All P (firsts xs)
  firsts-All P [] all = tt
  firsts-All P ((a, v) ∷ xs) all = (all.0, without-All P v (firsts xs) (firsts-All P xs all.1))

  without-Above : (v : D) (xs : Cells D) → Above v xs → without v xs ≡ xs
  without-Above v [] all = refl
  without-Above v ((b, w) ∷ xs) all = rw (all.0, without-Above v xs all.1)

  without-without :
      (v w : D)
      → ((c : D) → is_eq (cmp c w) ≡ is_eq (cmp c v))
      → (xs : Cells D) → without v (without w xs) ≡ without w xs
  without-without v w same [] = refl
  without-without v w same ((b, c) ∷ xs) = elim (Bool-cases (is_eq (cmp c w))) [
    | inl equal ↦ rw equal (without-without v w same xs)
    | inr other ↦
        rw (other, sym (same c) ∙ other) (ap (λ cs. (b, c) ∷ cs) (without-without v w same xs))
  ]

  shared-congr :
      (ys ys' : Cells D) (xs : Cells D)
      → All (λ c. contains cmp c.1 ys ≡ contains cmp c.1 ys') xs
      → shared ys xs ≡ shared ys' xs
  shared-congr ys ys' [] all = refl
  shared-congr ys ys' ((a, v) ∷ xs) all = rw (all.0, shared-congr ys ys' xs all.1)

  shared-without :
      (v : D) (ys : Cells D)
      → ((c : D) → is_eq (cmp c v) ≡ true → contains cmp c ys ≡ false)
      → (xs : Cells D) → shared ys (without v xs) ≡ shared ys xs
  shared-without v ys none [] = refl
  shared-without v ys none ((b, w) ∷ xs) = elim (Bool-cases (is_eq (cmp w v))) [
    | inl same ↦ rw (same, none w same) (shared-without v ys none xs)
    | inr other ↦ rw other (ground (arith, shared-without v ys none xs))
  ]

  pub common-nil : (xs : Cells D) → shared [] xs ≡ []
  common-nil [] = refl
  common-nil (c ∷ xs) = common-nil xs

  pub length-skip_cells : (v : D) (xs : Cells D) → length (skip_cells v xs) ≤ length xs
  length-skip_cells v [] = omega arith
  length-skip_cells v ((b, w) ∷ xs) = elim (Bool-cases (is_eq (cmp w v))) [
    | inl same ↦ rw same (omega (arith, length-skip_cells w xs))
    | inr other ↦ rw other (omega arith)
  ]

  module _ (ord : IsOrder cmp) where
    gt_trans : (c w v : D) → cmp c w ≡ Ordering.gt → cmp v w ≢ Ordering.gt → cmp c v ≡ Ordering.gt
    gt_trans c w v h le = ground (arith, ord.le_trans c v w)

    pub not_above : (v : D) → cmp v v ≢ Ordering.gt
    not_above v h = ground (arith, ord.gt_asymm v v)

    gt_le : (c w v : D) → cmp w v ≡ Ordering.gt → cmp w c ≢ Ordering.gt → cmp c v ≡ Ordering.gt
    gt_le c w v h le = ground (arith, ord.le_trans w c v)

    above-gt : (w v : D) → cmp v w ≢ Ordering.gt → is_eq (cmp w v) ≡ false → cmp w v ≡ Ordering.gt
    above-gt w v le other = ground (arith, ord.lt_asymm w v)

    gt-lt : (c v : D) → cmp c v ≡ Ordering.gt → is_eq (cmp v c) ≡ false
    gt-lt c v h = ground (arith, ord.gt_asymm c v)

    eq-le : (w v : D) → is_eq (cmp w v) ≡ true → cmp v w ≢ Ordering.gt
    eq-le w v e = ground (arith, ord.gt_asymm v w)

    eq_congr : (w v : D) → is_eq (cmp w v) ≡ true → (c : D) → is_eq (cmp c w) ≡ is_eq (cmp c v)
    eq_congr w v e c = ground (
      arith,
      eq-le w v e,
      ord.le_trans c w v,
      ord.le_trans c v w,
      ord.le_trans w v c,
      ord.le_trans v w c,
      ord.lt_asymm c w,
      ord.lt_asymm c v,
      ord.gt_asymm w c,
      ord.gt_asymm v c,
    )

    skip_cells-Above :
        (v : D) (xs : Cells D)
        → All (λ c. cmp v c.1 ≢ Ordering.gt) xs
        → Sorted cmp xs
        → Above v (skip_cells v xs)
    skip_cells-Above v [] all s = tt
    skip_cells-Above v ((b, w) ∷ xs) all s = elim (Bool-cases (is_eq (cmp w v))) [
      | inl same ↦
          rw same (All-mono _ _ (λ c h. gt_trans c.1 w v h all.0) _ (skip_cells-Above w xs s.0 s.1))
      | inr other ↦
          let above = above-gt w v all.0 other in
          rw other (above, All-mono _ _ (λ c le. gt_le c.1 w v above le) xs s.0)
    ]

    pub skip_cells-Sorted : (v : D) (xs : Cells D) → Sorted cmp xs → Sorted cmp (skip_cells v xs)
    skip_cells-Sorted v [] s = tt
    skip_cells-Sorted v ((b, w) ∷ xs) s = elim (Bool-cases (is_eq (cmp w v))) [
      | inl same ↦ rw same (skip_cells-Sorted w xs s.1)
      | inr other ↦ rw other s
    ]

    without-firsts :
        (v : D) (xs : Cells D)
        → All (λ c. cmp v c.1 ≢ Ordering.gt) xs
        → Sorted cmp xs
        → without v (firsts xs) ≡ firsts (skip_cells v xs)
    without-firsts v [] all s = refl
    without-firsts v ((b, w) ∷ xs) all s = elim (Bool-cases (is_eq (cmp w v))) [
      | inl same ↦
          rw same
            (without-without v w (eq_congr w v same) (firsts xs) ∙ without-firsts w xs s.0 s.1)
      | inr other ↦
          let above = above-gt w v all.0 other in
          rw other (
            ap (λ cs. (b, w) ∷ cs)
              (without-Above v (without w (firsts xs)) (
                without-All _ w (firsts xs)
                  (firsts-All _ xs (All-mono _ _ (λ c le. gt_le c.1 w v above le) xs s.0)))))
    ]

    contains-skip_cells :
        (c u : D) (ys : Cells D)
        → cmp c u ≡ Ordering.gt
        → contains cmp c ys ≡ contains cmp c (skip_cells u ys)
    contains-skip_cells c u [] h = refl
    contains-skip_cells c u ((b, w) ∷ ys) h = elim (Bool-cases (is_eq (cmp w u))) [
      | inl same ↦
          let above = gt_trans c u w h (ground (arith, same)) in
          rw (same, gt-lt c w above) (contains-skip_cells c w ys above)
      | inr other ↦ rw other refl
    ]

    -- If the first cells compare equal, the first one is copied and the cells that compare equal are
    -- skipped in both lists.
    pub common-eq :
        (a b : ℕ) (v u : D) (xs ys : Cells D)
        → is_eq (cmp v u) ≡ true
        → Sorted cmp ((a, v) ∷ xs)
        → common ((a, v) ∷ xs) ((b, u) ∷ ys) ≡ (a, v) ∷ common (skip_cells v xs) (skip_cells u ys)
    common-eq a b v u xs ys same s =
        let back : is_eq (cmp u v) ≡ true = ground (arith, eq-le v u same, ord.lt_asymm u v) in
        let zs = firsts (skip_cells v xs) in
        let agree : All (λ c. contains cmp c.1 ((b, u) ∷ ys) ≡ contains cmp c.1 (skip_cells u ys))
            zs =
          All-mono (λ (c : ℕ × D). cmp c.1 v ≡ Ordering.gt) _
            (λ c h.
              let above = gt_trans c.1 v u h (ground (arith, back)) in
              rw (gt-lt c.1 u above) (contains-skip_cells c.1 u ys above))
            zs (firsts-All _ _ (skip_cells-Above v xs s.0 s.1)) in
        rw back (
          ap (λ cs. (a, v) ∷ cs)
            (ap (shared ((b, u) ∷ ys)) (without-firsts v xs s.0 s.1)
              ∙ shared-congr ((b, u) ∷ ys) (skip_cells u ys) zs agree))

    -- A first cell that is less than all of the other list is passed over.
    pub common-lt :
        (a b : ℕ) (v u : D) (xs ys : Cells D)
        → cmp v u ≡ Ordering.lt
        → Sorted cmp ((b, u) ∷ ys)
        → common ((a, v) ∷ xs) ((b, u) ∷ ys) ≡ common xs ((b, u) ∷ ys)
    common-lt a b v u xs ys less s =
        let above = ord.lt_asymm v u less in
        let none : (c : D) → cmp u c ≡ Ordering.gt → contains cmp c ((b, u) ∷ ys) ≡ false =
          λ c h. rw h (none_equal cmp c ord u ys h s.0) in
        rw (none v above) (
          shared-without v ((b, u) ∷ ys) (λ c e. none c (gt_trans u v c above (ground (arith, e))))
            (firsts xs))

    -- So is a first cell of the other list that is less than all of this one.
    pub common-gt :
        (b : ℕ) (v u : D) (xs ys : Cells D)
        → cmp v u ≡ Ordering.gt
        → All (λ c. cmp v c.1 ≢ Ordering.gt) xs
        → common xs ((b, u) ∷ ys) ≡ common xs ys
    common-gt b v u xs ys more all = shared-congr ((b, u) ∷ ys) ys (firsts xs) (
        firsts-All _ xs (
          All-mono (λ (c : ℕ × D). cmp v c.1 ≢ Ordering.gt) _
            (λ c le. rw (gt-lt c.1 u (gt_le c.1 v u more le)) refl) xs all))
