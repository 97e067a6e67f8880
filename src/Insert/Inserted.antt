-- ===== src/Insert/Inserted.antt =====
-- A list with a new node linked on all its levels is well formed again.
use myskl.Prelude.{
  ℕ, ◌+◌, ◌%◌, ◌^◌, ◌≤◌, ◌<◌, ◌≡◌, ◌≢◌, sym, subst, ap, ◌∙◌, false, some, ◌∷◌, ◌++◌, arith, ltb,
  ◌==◌, if◌then◌else◌, Bool-cases, inl, inr, length, last_or, max, All, All-mono, All-append,
  All-append_left, All-append_right,
}
use myskl.Heap.{Heap}
use myskl.Heap.Chain.{
  has, Chain, Chain-insert, Chain-frame, Distinct, Distinct-insert, has-append, Chain-drop,
  tail_insert,
}
use myskl.SkipList.{SkipList}
use myskl.SkipList.Cells.{
  Cells, addrs, at, height, at-append, addrs-append, height-append, has-at, Distinct-at, before,
  after, before-append-after, insert_cell, insert_cell-Sorted, length-insert_cell, at_zero,
}
use myskl.SkipList.Invariant.{IsNode, IsSkipList}
use myskl.SkipList.Place.{Walkable, at-split, Chain-split, IsSkipList-Walkable}
use myskl.Insert.Links.{Linked}
use mathlib.Core.Path.{subst₂}

module _ {D : Type 0} {h : Heap D} {l : SkipList D} {xs : Cells D} (inv : IsSkipList h l xs)
    (x lev : ℕ) (d : D) where
  -- What holds of a new node before it is linked.
  pub record IsNew : Type 0 where
    pub apart : x ≢ l.header
    pub out : has x (addrs xs) ≡ false
    pub holds : h.val x ≡ some d
    pub full : h.cap x ≡ lev
    pub sized : h.sz x ≡ lev
    pub pos : 1 ≤ lev
    pub low : lev ≤ l.maxlevel
    pub fits : length xs + 1 < 2 ^ 32

  module _ (new : IsNew) (f : ℕ → ℕ → ℕ) (top : ℕ) (high : lev ≤ top)
      (linked : Linked h.next f x
        (λ j. last_or l.header (at h.sz j (before l.cmp d xs)))
        lev
        top) where
    abbrev pre : Cells D
    pre = before l.cmp d xs

    abbrev post : Cells D
    post = after l.cmp d xs

    abbrev split_eq : pre ++ post ≡ xs
    split_eq = before-append-after l.cmp d xs

    w : Walkable h l xs x d l.maxlevel
    w = IsSkipList-Walkable inv new.holds

    abbrev list' : SkipList D
    list' = record l {
      curlevel = max l.curlevel lev;
      tail = if f x 0 == l.header then x else l.tail;
      nodenum = (l.nodenum + 1) % 2 ^ 32;
    }

    heights : max l.curlevel lev ≡ height h.sz (insert_cell l.cmp d x xs)
    heights = omega (
      arith,
      inv.top,
      new.sized,
      height-append h.sz pre post,
      height-append h.sz pre ((x, d) ∷ post),
      ap (height h.sz) split_eq,
    )

    has_xs : (a : ℕ) → has a (addrs pre ++ addrs post) ≡ has a (addrs xs)
    has_xs a = ap (has a) (sym (addrs-append pre post)) ∙ ap (λ z. has a (addrs z)) split_eq

    apart' : Distinct (l.header ∷ addrs (insert_cell l.cmp d x xs))
    apart' = rw (addrs-append pre ((x, d) ∷ post)) (
      ground (
        arith,
        has_xs l.header,
        has-append l.header (addrs pre) (addrs post),
        has-append l.header (addrs pre) (x ∷ addrs post),
        new.apart,
        inv.apart.0,
      ),
      Distinct-insert x (addrs pre) (addrs post)
          (subst Distinct (ap addrs (sym split_eq) ∙ addrs-append pre post) inv.apart.1)
          (has_xs x ∙ new.out),
    )

    nodes' :
        All
          (λ c. IsNode (record h { next = f }) (max l.curlevel lev) c.0 c.1)
          (insert_cell l.cmp d x xs)
    nodes' =
        let old : All (λ c. IsNode (record h { next = f }) (max l.curlevel lev) c.0 c.1)
            (pre ++ post) =
          All-mono _ _
            (λ c p. record {
              holds = p.holds;
              full = p.full;
              pos = p.pos;
              low = omega (arith, p.low);
            })
            (pre ++ post) (subst (All _) (sym split_eq) inv.nodes) in
        All-append _ pre ((x, d) ∷ post) (All-append_left _ pre post old) (
          record {
            holds = new.holds;
            full = new.full ∙ sym new.sized;
            pos = omega (arith, new.pos, new.sized);
            low = omega (arith, new.sized);
          },
          All-append_right _ pre post old,
        )

    chain' :
        (i : ℕ)
        → i < l.maxlevel
        → Chain f l.header i l.header (at h.sz i (insert_cell l.cmp d x xs))
    chain' i lt = elim (Bool-cases (ltb i lev)) [
      | inl on ↦
          rw (at-append h.sz i pre ((x, d) ∷ post), new.sized, on)
            (Chain-insert h.next l.header i f l.header x (at h.sz i pre) (at h.sz i post)
              (subst (λ z. (has l.header z ≡ false) × Distinct z) (at-split w i)
                (has-at l.header h.sz i xs inv.apart.0, Distinct-at h.sz i xs inv.apart.1))
              new.apart (subst (λ z. has x z ≡ false) (at-split w i) (has-at x h.sz i xs new.out))
              (λ a. ground (arith, linked i a)) (Chain-split w i lt))
      | inr off ↦
          rw (at-append h.sz i pre ((x, d) ∷ post), new.sized, off)
            (Chain-frame h.next l.header i f l.header _ (λ a e. ground (arith, linked i a))
              (Chain-split w i lt))
    ]

    last' :
        (if f x 0 == l.header then x else l.tail)
        ≡ last_or l.header (addrs (insert_cell l.cmp d x xs))
    last' =
        let all_pos : All (λ c. 1 ≤ h.sz c.0) (pre ++ post) =
          subst (All _) (sym split_eq) (All-mono _ _ (λ c p. p.pos) xs inv.nodes) in
        let us_eq : at h.sz 0 pre ≡ addrs pre =
          at_zero h.sz pre (All-append_left _ pre post all_pos) in
        let vs_eq : at h.sz 0 post ≡ addrs post =
          at_zero h.sz post (All-append_right _ pre post all_pos) in
        let low : 0 < l.maxlevel = omega (arith, new.pos, new.low) in
        let chain : Chain h.next l.header 0 (last_or l.header (addrs pre)) (addrs post) =
          subst₂ (λ us vs. Chain h.next l.header 0 (last_or l.header us) vs) us_eq vs_eq
            (Chain-drop h.next l.header 0 l.header (at h.sz 0 pre) (at h.sz 0 post)
              (Chain-split w 0 low)) in
        rw (addrs-append pre ((x, d) ∷ post)) (
          tail_insert h.next l.header x (f x 0) l.tail (addrs pre) (addrs post) chain
            (ground (arith, linked 0 x, new.pos, ap (last_or l.header) us_eq))
            (ground
              (arith, inv.apart.0, has_xs l.header, has-append l.header (addrs pre) (addrs post)))
            (inv.last ∙ ap (last_or l.header) (ap addrs (sym split_eq) ∙ addrs-append pre post)))

    pub IsNew-IsSkipList : IsSkipList (record h { next = f }) list' (insert_cell l.cmp d x xs)
    IsNew-IsSkipList = record {
      order = inv.order;
      magic = inv.magic;
      has_header = inv.has_header;
      small = inv.small;
      top = heights;
      fits = omega (arith, inv.fits, new.low);
      room = inv.room;
      apart = apart';
      nodes = nodes';
      sorted = insert_cell-Sorted l.cmp d inv.order x xs inv.sorted;
      chains = chain';
      count = omega (arith, inv.count, length-insert_cell l.cmp d x xs, new.fits);
      last = last';
    }
