-- ===== src/SkipList/Cells.antt =====
-- What a list stands for: the address and the data of each node, in order. The nodes of one level
-- are a part of it, and so are the nodes before and after the place of a value.
use myskl.Prelude.{
  ℕ, ◌+◌, ◌≤◌, ◌<◌, ◌≡◌, refl, ◌≢◌, inl, inr, true, false, List, [], ◌∷◌, ◌++◌, Ordering, arith,
  ltb, if◌then◌else◌, Bool-cases, length, All, last_or, max, ap, All-mono, All-append,
  All-append_left, All-append_right, subst, sym, length-append,
}
use myskl.Heap.Chain.{has, Distinct}
use myskl.SkipList.{is_lt}

abbrev pub Cells : Type 0 → Type 0
Cells D = List (ℕ × D)

-- The comparison is a total order up to equivalence, as the library's documentation asks.
pub record IsOrder {D : Type 0} (cmp : D → D → Ordering) : Type 0 where
  pub lt_asymm : (a b : D) → cmp a b ≡ Ordering.lt → cmp b a ≡ Ordering.gt
  pub gt_asymm : (a b : D) → cmp a b ≡ Ordering.gt → cmp b a ≡ Ordering.lt
  pub le_trans : (a b c : D) → cmp a b ≢ Ordering.gt → cmp b c ≢ Ordering.gt → cmp a c ≢ Ordering.gt

skip_low :
    (a d e : ℕ) (rest : List ℕ) (u v : List ℕ)
    → rest ≡ u ++ v
    → last_or d u ≡ e
    → (u' v' : List ℕ) × (a ∷ rest ≡ u' ++ v') × (last_or d u' ≡ e)
skip_low a d e rest [] v p q = ([], a ∷ v, ap (λ l. a ∷ l) p, q)
skip_low a d e rest (b ∷ u) v p q = (a ∷ b ∷ u, v, ap (λ l. a ∷ l) p, q)

module _ {D : Type 0} where
  abbrev pub addrs : Cells D → List ℕ
  addrs [] = []
  addrs ((a, _) ∷ xs) = a ∷ addrs xs

  -- The nodes that have a pointer of level `j`, in a list whose nodes have `sz` levels.
  abbrev pub at : (ℕ → ℕ) → ℕ → Cells D → List ℕ
  at sz j [] = []
  at sz j ((a, _) ∷ xs) = if ltb j (sz a) then a ∷ at sz j xs else at sz j xs

  -- The most levels that a node has, and 1 for no node.
  abbrev pub height : (ℕ → ℕ) → Cells D → ℕ
  height sz [] = 1
  height sz ((a, _) ∷ xs) = max (sz a) (height sz xs)

  -- No later cell is less than an earlier one.
  abbrev pub Sorted : (D → D → Ordering) → Cells D → Type 0
  Sorted cmp [] = Unit
  Sorted cmp ((_, v) ∷ xs) = All (λ c. cmp v c.1 ≢ Ordering.gt) xs × Sorted cmp xs

  pub at-append :
      (sz : ℕ → ℕ) (j : ℕ) (xs ys : Cells D) → at sz j (xs ++ ys) ≡ at sz j xs ++ at sz j ys
  at-append sz j [] ys = refl
  at-append sz j ((a, v) ∷ xs) ys = ground (arith, at-append sz j xs ys)

  pub addrs-append : (xs ys : Cells D) → addrs (xs ++ ys) ≡ addrs xs ++ addrs ys
  addrs-append [] ys = refl
  addrs-append ((a, v) ∷ xs) ys = ground (arith, addrs-append xs ys)

  pub length-at-le : (sz : ℕ → ℕ) (j : ℕ) (xs : Cells D) → length (at sz j xs) ≤ length xs
  length-at-le sz j [] = omega arith
  length-at-le sz j ((a, v) ∷ xs) = ground (arith, length-at-le sz j xs)

  pub height_pos : (sz : ℕ → ℕ) (xs : Cells D) → 1 ≤ height sz xs
  height_pos sz [] = omega arith
  height_pos sz ((a, v) ∷ xs) = omega (arith, height_pos sz xs)

  -- A level at or above the height has no node.
  pub at-height : (sz : ℕ → ℕ) (j : ℕ) (xs : Cells D) → height sz xs ≤ j → at sz j xs ≡ []
  at-height sz j [] h = refl
  at-height sz j ((a, v) ∷ xs) h = ground (arith, at-height sz j xs)

  pub height-append :
      (sz : ℕ → ℕ) (xs ys : Cells D) → height sz (xs ++ ys) ≡ max (height sz xs) (height sz ys)
  height-append sz [] ys = omega (arith, height_pos sz ys)
  height-append sz ((a, v) ∷ xs) ys = omega (arith, height-append sz xs ys)

  -- A predicate of cells as one of addresses.
  abbrev pub AllAt : (ℕ → Type 0) → Cells D → Type 0
  AllAt P = All (λ c. P c.0)

  pub All-at :
      (P : ℕ → Type 0) (sz : ℕ → ℕ) (j : ℕ) (xs : Cells D)
      → All (λ c. j < sz c.0 → P c.0) xs
      → All P (at sz j xs)
  All-at P sz j [] h = tt
  All-at P sz j ((a, v) ∷ xs) h = elim (Bool-cases (ltb j (sz a))) [
    | inl e ↦ rw e (h.0 (ground arith), All-at P sz j xs h.1)
    | inr e ↦ rw e (All-at P sz j xs h.1)
  ]

  pub has-at :
      (b : ℕ) (sz : ℕ → ℕ) (j : ℕ) (xs : Cells D)
      → has b (addrs xs) ≡ false
      → has b (at sz j xs) ≡ false
  has-at b sz j [] h = refl
  has-at b sz j ((a, v) ∷ xs) h = ground (arith, has-at b sz j xs)

  pub Distinct-at :
      (sz : ℕ → ℕ) (j : ℕ) (xs : Cells D) → Distinct (addrs xs) → Distinct (at sz j xs)
  Distinct-at sz j [] d = tt
  Distinct-at sz j ((a, v) ∷ xs) d = elim (Bool-cases (ltb j (sz a))) [
    | inl e ↦ rw e (has-at a sz j xs d.0, Distinct-at sz j xs d.1)
    | inr e ↦ rw e (Distinct-at sz j xs d.1)
  ]

  pub All-ne : (b : ℕ) (xs : Cells D) → has b (addrs xs) ≡ false → All (λ c. c.0 ≢ b) xs
  All-ne b [] h = tt
  All-ne b ((a, v) ∷ xs) h = (ground arith, All-ne b xs (ground arith))

  -- Only the heights of the list's own nodes count.
  pub at_congr :
      (sz sz' : ℕ → ℕ) (j : ℕ) (xs : Cells D)
      → All (λ c. sz' c.0 ≡ sz c.0) xs
      → at sz' j xs ≡ at sz j xs
  at_congr sz sz' j [] h = refl
  at_congr sz sz' j ((a, v) ∷ xs) h = ground (arith, at_congr sz sz' j xs)

  pub height_congr :
      (sz sz' : ℕ → ℕ) (xs : Cells D)
      → All (λ c. sz' c.0 ≡ sz c.0) xs
      → height sz' xs ≡ height sz xs
  height_congr sz sz' [] h = refl
  height_congr sz sz' ((a, v) ∷ xs) h = ground (arith, height_congr sz sz' xs)

  -- What is left of level `j` behind the last node of level `j + 1`.
  abbrev pub Below : (ℕ → ℕ) → ℕ → ℕ → Cells D → Type 0
  Below sz j d xs =
      (u v : List ℕ) × (at sz j xs ≡ u ++ v) × (last_or d u ≡ last_or d (at sz (j + 1) xs))

  -- The last node of a level is met on the level below it too.
  pub last_or-at_suc : (sz : ℕ → ℕ) (j d : ℕ) (xs : Cells D) → Below sz j d xs
  last_or-at_suc sz j d [] = ([], [], refl, refl)
  last_or-at_suc sz j d ((a, w) ∷ xs) = elim (Bool-cases (ltb (j + 1) (sz a))) [
    | inl hi ↦
        let lo : ltb j (sz a) ≡ true = ground arith in
        let (u, v, p, q) = last_or-at_suc sz j a xs in rw (hi, lo) (a ∷ u, v, ap (λ l. a ∷ l) p, q)
    | inr no_hi ↦ elim (Bool-cases (ltb j (sz a))) [
      | inl lo ↦
          let (u, v, p, q) = last_or-at_suc sz j d xs in rw (no_hi, lo) (skip_low a d _ _ u v p q)
      | inr no_lo ↦ rw (no_hi, no_lo) (last_or-at_suc sz j d xs)
    ]
  ]

module _ {D : Type 0} (cmp : D → D → Ordering) (d : D) where
  -- The cells before and after the place of `d`: those less than `d`, and the others.
  abbrev pub before : Cells D → Cells D
  before [] = []
  before ((a, v) ∷ xs) = if is_lt (cmp v d) then (a, v) ∷ before xs else []

  abbrev pub after : Cells D → Cells D
  after [] = []
  after ((a, v) ∷ xs) = if is_lt (cmp v d) then after xs else (a, v) ∷ xs

  pub before-append-after : (xs : Cells D) → before xs ++ after xs ≡ xs
  before-append-after [] = refl
  before-append-after ((a, v) ∷ xs) = ground (arith, before-append-after xs)

  pub before-All : (xs : Cells D) → All (λ c. cmp c.1 d ≡ Ordering.lt) (before xs)
  before-All [] = tt
  before-All ((a, v) ∷ xs) =
      elim (cmp v d)
          as (λ o.
            cmp v d ≡ o
            → All (λ c. cmp c.1 d ≡ Ordering.lt) (if is_lt o then (a, v) ∷ before xs else [])) [
              | Ordering.lt ↦ λ e. (e, before-All xs)
              | Ordering.eq ↦ λ e. tt
              | Ordering.gt ↦ λ e. tt
            ]
        refl

  not_lt_mono :
      IsOrder cmp
      → (v w : D) → is_lt (cmp v d) ≡ false
      → cmp v w ≢ Ordering.gt
      → is_lt (cmp w d) ≡ false
  not_lt_mono ord v w h le =
      ground (arith, ord.le_trans v w d, ord.le_trans d v w, ord.lt_asymm w d, ord.gt_asymm d v)

  pub after-All :
      IsOrder cmp → (xs : Cells D) → Sorted cmp xs → All (λ c. is_lt (cmp c.1 d) ≡ false) (after xs)
  after-All ord [] s = tt
  after-All ord ((a, v) ∷ xs) s = elim (Bool-cases (is_lt (cmp v d))) [
    | inl e ↦ rw e (after-All ord xs s.1)
    | inr e ↦ rw e (e, All-mono _ _ (λ c le. not_lt_mono ord v c.1 e le) xs s.0)
  ]

  -- The specification of an insertion: the new cell goes before the first that is not less.
  abbrev pub insert_cell : ℕ → Cells D → Cells D
  insert_cell a xs = before xs ++ (a, d) ∷ after xs

  before_after_Sorted :
      IsOrder cmp
      → (a : ℕ) (us vs : Cells D) → Sorted cmp (us ++ vs)
      → All (λ c. cmp c.1 d ≡ Ordering.lt) us
      → All (λ c. is_lt (cmp c.1 d) ≡ false) vs
      → Sorted cmp (us ++ (a, d) ∷ vs)
  before_after_Sorted ord a [] vs s lo hi =
      (All-mono _ _ (λ c e. ground (arith, ord.gt_asymm d c.1)) vs hi, s)
  before_after_Sorted ord a ((b, v) ∷ us) vs s lo hi = (
    All-append _ us ((a, d) ∷ vs) (All-append_left _ us vs s.0)
        (ground arith, All-append_right _ us vs s.0),
    before_after_Sorted ord a us vs s.1 lo.1 hi,
  )

  pub insert_cell-Sorted :
      IsOrder cmp → (a : ℕ) (xs : Cells D) → Sorted cmp xs → Sorted cmp (insert_cell a xs)
  insert_cell-Sorted ord a xs s =
      before_after_Sorted ord a (before xs) (after xs)
        (subst (Sorted cmp) (sym (before-append-after xs)) s) (before-All xs) (after-All ord xs s)

  pub length-insert_cell : (a : ℕ) (xs : Cells D) → length (insert_cell a xs) ≡ length xs + 1
  length-insert_cell a xs = omega (
    arith,
    length-append (before xs) ((a, d) ∷ after xs),
    length-append (before xs) (after xs),
    ap length (before-append-after xs),
  )

-- Level 0 has every node.
pub at_zero :
    {D : Type 0} (sz : ℕ → ℕ) (xs : Cells D) → All (λ c. 1 ≤ sz c.0) xs → at sz 0 xs ≡ addrs xs
at_zero sz [] h = refl
at_zero sz ((a, v) ∷ xs) h = ground (arith, at_zero sz xs)

-- A level with no node is at or above the height.
pub height-le_of_at :
    {D : Type 0} (sz : ℕ → ℕ) (j : ℕ) (xs : Cells D) → 1 ≤ j → at sz j xs ≡ [] → height sz xs ≤ j
height-le_of_at sz j [] p e = p
height-le_of_at sz j ((a, v) ∷ xs) p e = ground (arith, height-le_of_at sz j xs)

pub All-le-height :
    {D : Type 0} (sz : ℕ → ℕ) (b : ℕ) (xs : Cells D) → height sz xs ≤ b → All (λ c. sz c.0 ≤ b) xs
All-le-height sz b [] h = tt
All-le-height sz b ((a, v) ∷ xs) h = (omega arith, All-le-height sz b xs (omega arith))

pub Sorted-remove :
    {D : Type 0} (cmp : D → D → Ordering) (c : ℕ × D) (us vs : Cells D)
    → Sorted cmp (us ++ c ∷ vs)
    → Sorted cmp (us ++ vs)
Sorted-remove cmp c [] vs s = s.1
Sorted-remove cmp c ((b, v) ∷ us) vs s = (
  All-append _ us vs (All-append_left _ us (c ∷ vs) s.0) (All-append_right _ us (c ∷ vs) s.0).1,
  Sorted-remove cmp c us vs s.1,
)
