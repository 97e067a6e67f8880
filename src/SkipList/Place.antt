-- ===== src/SkipList/Place.antt =====
-- On each level the walk for a value ends at the last node before the value's place.
use myskl.Prelude.{
  ℕ, ◌+◌, ◌≤◌, ◌<◌, ◌≡◌, sym, subst, ◌≢◌, false, some, ◌++◌, arith, All, All-zip, All-mono,
  All-append_left, All-append_right, All-last_or, length, length-append, last_or, last_or-append,
  append_assoc, ap, ◌∙◌, ◌>>=◌,
}
use myskl.Heap.{Heap}
use myskl.Heap.Chain.{has, Chain, Chain-drop, ne-last_or, has-append, Chain-frame}
use myskl.SkipList.{SkipList, less, walk, rounds, is_lt}
use myskl.SkipList.Cells.{
  Cells, IsOrder, addrs, at, Sorted, at-append, length-at-le, All-at, All-ne, last_or-at_suc,
  before, after, before-append-after, before-All, after-All, has-at, addrs-append, at-height,
  height, height-append,
}
use myskl.SkipList.Invariant.{IsSkipList}
use myskl.SkipList.Walk.{Passes, StopsAt, All-StopsAt, walk-last_or}

module _ {D : Type 0} where
  -- The levels below `k` can be walked in search of the data `d` of node `n`.
  pub record Walkable (h : Heap D) (l : SkipList D) (xs : Cells D) (n : ℕ) (d : D) (k : ℕ)
      : Type 0 where
    pub order : IsOrder l.cmp
    pub sorted : Sorted l.cmp xs
    pub target : h.val n ≡ some d
    pub wide : k ≤ h.cap l.header
    pub outside : has l.header (addrs xs) ≡ false
    pub nodes : All (λ c. (h.val c.0 ≡ some c.1) × (h.cap c.0 ≡ h.sz c.0)) xs
    pub chains : (i : ℕ) → i < k → Chain h.next l.header i l.header (at h.sz i xs)
    pub fuel : length xs < rounds l

  module _ {h : Heap D} {l : SkipList D} {xs : Cells D} {n : ℕ} {d : D} {k : ℕ}
      (w : Walkable h l xs n d k) where
    open w use {order, sorted, target, wide, outside, nodes, chains, fuel}

    abbrev pub pre : Cells D
    pre = before l.cmp d xs

    abbrev pub post : Cells D
    post = after l.cmp d xs

    -- The node of level `i` behind which `d` belongs.
    abbrev pub pred_at : ℕ → ℕ
    pred_at i = last_or l.header (at h.sz i pre)

    abbrev Facts : ℕ × D → Type 0
    Facts c = ((h.val c.0 ≡ some c.1) × (h.cap c.0 ≡ h.sz c.0)) × (c.0 ≢ l.header)

    facts : All Facts xs
    facts = All-zip _ _ xs nodes (All-ne l.header xs outside)

    Facts-split : All Facts (pre ++ post)
    Facts-split = rw (before-append-after l.cmp d xs) facts

    less_lem : (a : ℕ) (v : D) → h.val a ≡ some v → less l h a n ≡ some (is_lt (l.cmp v d))
    unfolding less
    less_lem a v e = rw (e, target, ◌>>=◌)

    pre-Passes : (i : ℕ) → All (Passes l h n i) (at h.sz i pre)
    pre-Passes i = All-at (Passes l h n i) h.sz i pre (
        All-mono _ _
          (λ c f lt. record {
            below = less_lem c.0 c.1 f.0.0.0 ∙ ap (λ o. some (is_lt o)) f.1;
            wide = omega (arith, f.0.0.1);
            inner = f.0.1;
          })
          pre (All-zip _ _ pre (All-append_left _ pre post Facts-split) (before-All l.cmp d xs)))

    post-StopsAt : (i : ℕ) → StopsAt l h n i (at h.sz i post)
    post-StopsAt i = All-StopsAt l h n i (at h.sz i post) (
        All-at (λ b. (less l h b n ≡ some false) × (b ≢ l.header)) h.sz i post
          (All-mono _ _ (λ c f lt. (less_lem c.0 c.1 f.0.0.0 ∙ ap some f.1, f.0.1)) post
            (All-zip _ _ post (All-append_right _ pre post Facts-split)
              (after-All l.cmp d order xs sorted))))

    pub at-split : (i : ℕ) → at h.sz i xs ≡ at h.sz i pre ++ at h.sz i post
    at-split i = ap (at h.sz i) (sym (before-append-after l.cmp d xs)) ∙ at-append h.sz i pre post

    pub Chain-split :
        (i : ℕ) → i < k → Chain h.next l.header i l.header (at h.sz i pre ++ at h.sz i post)
    Chain-split i lt = subst (Chain h.next l.header i l.header) (at-split i) (chains i lt)

    pub walk-pred_at :
        (i : ℕ)
        → i < k
        → (x : ℕ) → x ≡ pred_at (i + 1)
        → walk l h n i (rounds l) x ≡ some (pred_at i)
    walk-pred_at i lt x e =
        let (u, v, p, q) = last_or-at_suc h.sz i l.header pre in
        let passes : All (Passes l h n i) (u ++ v) =
          subst (All (Passes l h n i)) p (pre-Passes i) in
        let chain : Chain h.next l.header i l.header (u ++ (v ++ at h.sz i post)) =
          subst (Chain h.next l.header i l.header)
            (ap (λ z. z ++ at h.sz i post) p ∙ append_assoc u v (at h.sz i post))
            (Chain-split i lt) in
        let here : last_or l.header u ≡ x = q ∙ sym e in
        let short : length v < rounds l = omega (
          arith,
          ap length p,
          length-append u v,
          length-at-le h.sz i pre,
          ap length (before-append-after l.cmp d xs),
          length-append pre post,
        ) in
        let wide_here : i < h.cap x =
          subst (λ z. i < h.cap z) here
            (All-last_or (λ a. i < h.cap a) l.header u (omega arith)
              (All-mono _ _ (λ a p. p.wide) u (All-append_left _ u v passes))) in
        walk-last_or l h n i (rounds l) x v (at h.sz i post) short wide_here
          (subst (λ z. Chain h.next l.header i z (v ++ at h.sz i post)) here
            (Chain-drop h.next l.header i l.header u (v ++ at h.sz i post) chain))
          (All-append_right _ u v passes) (post-StopsAt i)
        ∙ ap some (
            ap (λ z. last_or z v) (sym here)
            ∙ sym (last_or-append l.header u v)
            ∙ ap (last_or l.header) (sym p))

    -- The walk from the header ends there too.
    pub walk-header : (i : ℕ) → i < k → walk l h n i (rounds l) l.header ≡ some (pred_at i)
    walk-header i lt =
        walk-last_or l h n i (rounds l) l.header (at h.sz i pre) (at h.sz i post)
          (omega (
            arith,
            length-at-le h.sz i pre,
            ap length (before-append-after l.cmp d xs),
            length-append pre post,
          ))
          (omega arith) (Chain-split i lt) (pre-Passes i) (post-StopsAt i)

    pub has-pre : (a : ℕ) → has a (addrs xs) ≡ false → has a (addrs pre) ≡ false
    has-pre a out = ground (
      arith,
      ap (λ z. has a (addrs z)) (before-append-after l.cmp d xs),
      ap (has a) (addrs-append pre post),
      has-append a (addrs pre) (addrs post),
    )

    -- A node outside the list is behind none of its own predecessors.
    pub pred_at-ne : (a : ℕ) → a ≢ l.header → has a (addrs xs) ≡ false → (i : ℕ) → a ≢ pred_at i
    pred_at-ne a ne out i =
        ne-last_or a l.header (at h.sz i pre) ne (has-at a h.sz i pre (has-pre a out))

    pub cap-pred_at : (i : ℕ) → i < k → i < h.cap (pred_at i)
    cap-pred_at i lt =
        All-last_or (λ a. i < h.cap a) l.header (at h.sz i pre) (omega arith)
          (All-mono _ _ (λ a p. p.wide) (at h.sz i pre) (pre-Passes i))

    -- Other pointers on the levels that have been walked do not matter.
    pub Walkable-next :
        (f : ℕ → ℕ → ℕ) (k' : ℕ)
        → k' ≤ k
        → ((a j : ℕ) → j < k' → f a j ≡ h.next a j)
        → Walkable (record h { next = f }) l xs n d k'
    Walkable-next f k' le same = record {
      order = order;
      sorted = sorted;
      target = target;
      wide = omega arith;
      outside = outside;
      nodes = nodes;
      chains = λ i lt.
          Chain-frame h.next l.header i f l.header (at h.sz i xs) (λ a e. same a i lt)
            (chains i (omega arith));
      fuel = fuel;
    }

  pub IsSkipList-Walkable :
      {h : Heap D} {l : SkipList D} {xs : Cells D} {n : ℕ} {d : D}
      → IsSkipList h l xs
      → h.val n ≡ some d
      → Walkable h l xs n d l.maxlevel
  IsSkipList-Walkable {xs} inv target = record {
    order = inv.order;
    sorted = inv.sorted;
    target = target;
    wide = omega (arith, inv.room);
    outside = inv.apart.0;
    nodes = All-mono _ _ (λ c p. (p.holds, p.full)) xs inv.nodes;
    chains = inv.chains;
    fuel = omega (arith, inv.count);
  }

  -- Only the header, the comparison and the count of a list matter to a walk.
  pub Walkable-raise :
      {h : Heap D} {l : SkipList D} {xs : Cells D} {n : ℕ} {d : D} {k : ℕ} (c k' : ℕ)
      → Walkable h l xs n d k
      → k' ≤ k
      → Walkable h (record l { curlevel = c }) xs n d k'
  Walkable-raise c k' w le = record {
    order = w.order;
    sorted = w.sorted;
    target = w.target;
    wide = omega (arith, w.wide);
    outside = w.outside;
    nodes = w.nodes;
    chains = λ i lt. w.chains i (omega arith);
    fuel = w.fuel;
  }

  -- No node before a place is as high as the list.
  pub header-last_or :
      {h : Heap D} {l : SkipList D} {xs : Cells D}
      → IsSkipList h l xs
      → (d : D) (j : ℕ) → l.curlevel ≤ j
      → l.header ≡ last_or l.header (at h.sz j (before l.cmp d xs))
  header-last_or {h} {l} {xs} inv d j le = ap (last_or l.header) (
      sym (
        at-height h.sz j (before l.cmp d xs) (
          omega (
            arith,
            inv.top,
            height-append h.sz (before l.cmp d xs) (after l.cmp d xs),
            ap (height h.sz) (before-append-after l.cmp d xs),
          ))))
