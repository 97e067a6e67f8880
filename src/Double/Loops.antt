-- ===== src/Double/Loops.antt =====
-- src/skl_ins.c and src/skl_del.c with double links: the loops over the levels of a node.
use myskl.Prelude.{
  ℕ, zero, suc, ◌+◌, ◌≤◌, ◌<◌, ◌≡◌, ◌≢◌, refl, ap, ◌∙◌, sym, subst, true, Option, some, List, ◌∷◌,
  ◌++◌, arith, ◌>>=◌, ◌⊎◌, ==_self, ne→==, last_or,
}
use myskl.Heap.Chain.{has, Distinct, Chain-frame, Chain-drop}
use myskl.Heap.Writes.{load-some}
use myskl.Double.{DoubleHeap, link_double_loop, unlink_double_loop}
use myskl.Double.Links.{
  Back-frame, Ring, SameLevels, link_double-Ring, unlink_double-Ring, wide_last,
}

no_level : (i : ℕ) → i + 0 ≡ i
no_level i = omega arith

next_level : (i m : ℕ) → i + suc m ≡ i + 1 + m
next_level i m = omega arith

module _ {D : Type 0} where
  -- Only pointers of the levels from `i` to below `k` differ.
  pub record SameOutside (i k : ℕ) (d d' : DoubleHeap D) : Type 0 where
    pub next : (a j : ℕ) → (j < i) ⊎ (k ≤ j) → d'.heap.next a j ≡ d.heap.next a j
    pub prev : (a j : ℕ) → (j < i) ⊎ (k ≤ j) → d'.prev a j ≡ d.prev a j
    pub cap : d'.heap.cap ≡ d.heap.cap
    pub sz : d'.heap.sz ≡ d.heap.sz
    pub val : d'.heap.val ≡ d.heap.val

  outside_none : (i k : ℕ) (d : DoubleHeap D) → SameOutside i k d d
  outside_none i k d = record {
    next = λ a j o. refl;
    prev = λ a j o. refl;
    cap = refl;
    sz = refl;
    val = refl;
  }

  outside_step :
      (i n : ℕ) {d d1 d' : DoubleHeap D}
      → SameLevels i d d1
      → SameOutside (i + 1) (i + 1 + n) d1 d'
      → SameOutside i (i + suc n) d d'
  outside_step i n s t = record {
    next = λ a j o. t.next a j (omega arith) ∙ s.next a j (omega arith);
    prev = λ a j o. t.prev a j (omega arith) ∙ s.prev a j (omega arith);
    cap = t.cap ∙ s.cap;
    sz = t.sz ∙ s.sz;
    val = t.val ∙ s.val;
  }

  -- A level on which no pointer differs
  Ring-frame :
      {d d' : DoubleHeap D} {header j : ℕ} {ns : List ℕ}
      → ((a : ℕ) → d'.heap.next a j ≡ d.heap.next a j)
      → ((a : ℕ) → d'.prev a j ≡ d.prev a j)
      → Ring d header j ns
      → Ring d' header j ns
  Ring-frame {d} {d'} {header} {j} {ns} next prev ring = record {
    forth = Chain-frame d.heap.next header j d'.heap.next header ns (λ a e. next a) ring.forth;
    back = Back-frame d.prev header j d'.prev header ns (λ a e. prev a) ring.back;
  }

  module _ (header x : ℕ) (us vs : ℕ → List ℕ) (upd : ℕ → Option ℕ)
      (apart : (j : ℕ) → Distinct (header ∷ us j ++ x ∷ vs j)) where
    -- `update` has the node in front of `x` on the level, and the nodes of the level and `x` have a
    -- pointer of the level.
    pub record IsReady (d : DoubleHeap D) (j : ℕ) : Type 0 where
      pub behind : upd j ≡ some (last_or header (us j))
      pub wide : (a : ℕ) → has a (header ∷ us j ++ x ∷ vs j) ≡ true → j < d.heap.cap a

    IsReady-cap :
        {d d' : DoubleHeap D} (j : ℕ) → d'.heap.cap ≡ d.heap.cap → IsReady d j → IsReady d' j
    IsReady-cap j same ready = record {
      behind = ready.behind;
      wide = λ a e. omega (arith, ready.wide a e, ap (λ f. f a) same);
    }

    -- A property of `n` levels from level `i` on
    abbrev pub Levels : (DoubleHeap D → ℕ → Type 0) → DoubleHeap D → ℕ → ℕ → Type 0
    Levels P d i zero = Unit
    Levels P d i (suc n) = P d i × Levels P d (i + 1) n

    abbrev pub With : DoubleHeap D → ℕ → Type 0
    With d j = IsReady d j × Ring d header j (us j ++ x ∷ vs j)

    abbrev pub Without : DoubleHeap D → ℕ → Type 0
    Without d j = IsReady d j × Ring d header j (us j ++ vs j)

    abbrev On : (ℕ → List ℕ) → DoubleHeap D → ℕ → Type 0
    On ms d j = IsReady d j × Ring d header j (ms j)

    -- The levels above level `k` are as they were.
    Levels-above :
        {d d1 : DoubleHeap D} (ms : ℕ → List ℕ) (k i n : ℕ)
        → k < i
        → SameLevels k d d1
        → Levels (On ms) d i n
        → Levels (On ms) d1 i n
    Levels-above ms k i zero lt same levels = tt
    Levels-above ms k i (suc n) lt same ((ready, ring), levels) = (
      (
        IsReady-cap i same.cap ready,
        Ring-frame (λ a. same.next a i (omega arith)) (λ a. same.prev a i (omega arith)) ring,
      ),
      Levels-above ms k (i + 1) n (omega arith) same levels,
    )

    -- So is level `i` below the levels that are next.
    level_below :
        {d1 d' : DoubleHeap D} (ms : ℕ → List ℕ) (i k : ℕ)
        → SameOutside (i + 1) k d1 d'
        → On ms d1 i
        → On ms d' i
    level_below ms i k same (ready, ring) = (
      IsReady-cap i same.cap ready,
      Ring-frame (λ a. same.next a i (omega arith)) (λ a. same.prev a i (omega arith)) ring,
    )

    -- In a build with double links: the loop of an insertion over the levels of node `x` ends without
    -- an access out of bounds, and links `x` on each of them behind the node that `update` has for the
    -- level, forwards and backwards; it changes no other level.
    pub link_double_loop-Levels :
        (n i : ℕ) (d : DoubleHeap D)
        → Levels Without d i n
        → (d' : DoubleHeap D) × (link_double_loop x upd n i d ≡ some d')
          × Levels With d' i n
          × SameOutside i (i + n) d d'
    unfolding link_double_loop
    link_double_loop-Levels zero i d levels = (d, refl, tt, outside_none i (i + 0) d)
    link_double_loop-Levels (suc n) i d ((ready, ring), levels) =
        let (d1, step, ring1, same1) =
          link_double-Ring d header i x (us i) (vs i) ready.wide (apart i) ring in
        let (d', run, rest, same) =
          link_double_loop-Levels n (i + 1) d1
            (Levels-above (λ j. us j ++ vs j) i (i + 1) n (omega arith) same1 levels) in
        (
          d',
          rw (ready.behind, ◌>>=◌, step, ◌>>=◌) run,
          (
            level_below (λ j. us j ++ x ∷ vs j) i (i + 1 + n) same
                (IsReady-cap i same1.cap ready, ring1),
            rest,
          ),
          outside_step i n same1 same,
        )

    -- The loop of a deletion stops here: the pointer of the node in `update` is not to `x`.
    pub record IsStop (d : DoubleHeap D) (j : ℕ) : Type 0 where
      pub node : ℕ
      pub behind : upd j ≡ some node
      pub wide : j < d.heap.cap node
      pub other : d.heap.next node j ≢ x

    IsStop-frame :
        {d d1 : DoubleHeap D} (i j : ℕ) → j ≢ i → SameLevels i d d1 → IsStop d j → IsStop d1 j
    IsStop-frame i j ne same stop = record {
      node = stop.node;
      behind = stop.behind;
      wide = omega (arith, stop.wide, ap (λ f. f stop.node) same.cap);
      other = λ e. stop.other (sym (same.next stop.node j ne) ∙ e);
    }

    -- In a build with double links: the loop of a deletion, in `n` rounds, ends without an access out
    -- of bounds, and unlinks node `x` on each of the `m` levels that it has from level `i` on,
    -- forwards and backwards, where on the level above these, if there is one, the node that `update`
    -- has does not point to `x`; it changes no other level.
    pub unlink_double_loop-Levels :
        (n m i : ℕ) (d : DoubleHeap D)
        → m ≤ n
        → Levels With d i m
        → (m < n → IsStop d (i + m))
        → (d' : DoubleHeap D) × (unlink_double_loop x upd n i d ≡ some d')
          × Levels Without d' i m
          × SameOutside i (i + m) d d'
    unfolding unlink_double_loop
    unlink_double_loop-Levels zero zero i d le levels stop = (d, refl, tt, outside_none i (i + 0) d)
    unlink_double_loop-Levels zero (suc m) i d le levels stop = absurd (omega arith)
    unlink_double_loop-Levels (suc n) zero i d le levels stop =
        let s = subst (IsStop d) (no_level i) (stop (omega arith)) in
        (
          d,
          rw
              (
                s.behind,
                ◌>>=◌,
                load-some d.heap s.node i s.wide,
                ◌>>=◌,
                ne→== (d.heap.next s.node i) x s.other,
              )
              refl,
          tt,
          outside_none i (i + 0) d,
        )
    unlink_double_loop-Levels (suc n) (suc m) i d le ((ready, ring), levels) stop =
        let pointed = (Chain-drop d.heap.next header i header (us i) (x ∷ vs i) ring.forth).0 in
        let (d1, step, ring1, same1) =
          unlink_double-Ring d header i x (us i) (vs i) ready.wide (apart i) ring in
        let (d', run, rest, same) =
          unlink_double_loop-Levels n m (i + 1) d1 (omega arith)
            (Levels-above (λ j. us j ++ x ∷ vs j) i (i + 1) m (omega arith) same1 levels)
            (λ lt.
              subst (IsStop d1) (next_level i m)
                (IsStop-frame i (i + suc m) (omega arith) same1 (stop (omega arith)))) in
        (
          d',
          rw
              (
                ready.behind,
                ◌>>=◌,
                load-some d.heap (last_or header (us i)) i
                    (wide_last d header i x (us i) (vs i) ready.wide (apart i)),
                ◌>>=◌,
                pointed,
                ==_self x,
                step,
                ◌>>=◌,
              )
              run,
          (
            level_below (λ j. us j ++ vs j) i (i + 1 + m) same
                (IsReady-cap i same1.cap ready, ring1),
            rest,
          ),
          outside_step i m same1 same,
        )
