-- ===== src/Delete/Removed.antt =====
-- A list with one of its nodes unlinked from all its levels is well formed again.
use myskl.Prelude.{
  ℕ, ◌^◌, ◌≤◌, ◌<◌, ◌≡◌, ◌≢◌, refl, sym, subst, ap, ◌∙◌, false, [], ◌∷◌, ◌++◌, arith, ltb, ◌==◌,
  ◌&&◌, if◌then◌else◌, length-append, last_or, All, All-mono, All-zip, All-append, All-append_left,
  All-append_right, ◌||◌, lt→ltb, le→ltb, List,
}
use myskl.Heap.{Heap}
use myskl.Heap.Chain.{
  has, Chain, Chain-remove, Chain-frame, Chain-drop, Chain-head_or, Distinct, Distinct-remove,
  has-append, head_or, tail_remove, ne-last_or, Distinct-middle,
}
use myskl.SkipList.{SkipList}
use myskl.SkipList.Cells.{
  Cells, addrs, at, at_zero, height, height_pos, at-append, addrs-append, height-append, has-at,
  Distinct-at, Sorted-remove, All-le-height,
}
use myskl.SkipList.Invariant.{IsNode, IsSkipList}
use myskl.Delete.{uint_dec}
use native.Mathlib.Decide.{dec_lt}

-- `next'` is `next` with `x` taken out from behind `p j` on each level `j` below `top`.
abbrev pub Unlinked : (next next' : ℕ → ℕ → ℕ) → ℕ → (ℕ → ℕ) → ℕ → Type 0
Unlinked next next' x p top =
    (j a : ℕ) → next' a j ≡ (if ltb j top && a == p j then next x j else next a j)

module _ {D : Type 0} {h : Heap D} {l : SkipList D} (us vs : Cells D) (x : ℕ) (v : D)
    (inv : IsSkipList h l (us ++ (x, v) ∷ vs)) where
  -- The node of level `j` in front of `x`.
  abbrev pub pred_of : ℕ → ℕ
  pred_of j = last_or l.header (at h.sz j us)

  abbrev pub own : IsNode h l.curlevel x v
  own = (All-append_right _ us ((x, v) ∷ vs) inv.nodes).0

  apart_addrs : Distinct (l.header ∷ addrs us ++ x ∷ addrs vs)
  apart_addrs = subst (λ z. Distinct (l.header ∷ z)) (addrs-append us ((x, v) ∷ vs)) inv.apart

  apart_header : (has l.header (addrs us) || (l.header == x) || has l.header (addrs vs)) ≡ false
  apart_header = ground (arith, has-append l.header (addrs us) (x ∷ addrs vs), apart_addrs.0)

  apart_x : (has x (addrs us) || has x (addrs vs)) ≡ false
  apart_x = Distinct-middle x (addrs us) (addrs vs) apart_addrs.1

  pub has_out :
      (has x (addrs us) ≡ false)
      × (has x (addrs vs) ≡ false)
      × (has l.header (addrs us) ≡ false)
      × (has l.header (addrs vs) ≡ false)
      × (x ≢ l.header)
  has_out = (
    ground (arith, apart_x),
    ground (arith, apart_x),
    ground (arith, apart_header),
    ground (arith, apart_header),
    ground (arith, apart_header),
  )

  pub ne-pred_of : (j : ℕ) → x ≢ pred_of j
  ne-pred_of j = ne-last_or x l.header (at h.sz j us) has_out.4 (has-at x h.sz j us has_out.0)

  at_on : (j : ℕ) → j < h.sz x → at h.sz j (us ++ (x, v) ∷ vs) ≡ at h.sz j us ++ x ∷ at h.sz j vs
  at_on j lt =
      at-append h.sz j us ((x, v) ∷ vs)
      ∙ ap (λ b. at h.sz j us ++ (if b then x ∷ at h.sz j vs else at h.sz j vs))
          (lt→ltb j (h.sz x) lt)

  -- The way of level `j`, with `x` if it is on that level.
  pub Chain-on :
      (j : ℕ) → j < h.sz x → Chain h.next l.header j l.header (at h.sz j us ++ x ∷ at h.sz j vs)
  Chain-on j lt =
      subst (Chain h.next l.header j l.header) (at_on j lt)
        (inv.chains j (omega (arith, own.low, inv.fits)))

  pub Chain-off :
      (j : ℕ)
      → h.sz x ≤ j
      → j < l.maxlevel
      → Chain h.next l.header j l.header (at h.sz j us ++ at h.sz j vs)
  Chain-off j le lt =
      subst (Chain h.next l.header j l.header)
        (at-append h.sz j us ((x, v) ∷ vs)
          ∙ ap (λ b. at h.sz j us ++ (if b then x ∷ at h.sz j vs else at h.sz j vs))
              (le→ltb j (h.sz x) le))
        (inv.chains j lt)

  pub next-pred_of : (j : ℕ) → j < h.sz x → h.next (pred_of j) j ≡ x
  next-pred_of j lt =
      (Chain-drop h.next l.header j l.header (at h.sz j us) (x ∷ at h.sz j vs) (Chain-on j lt)).0

  pub next-pred_of_ne : (j : ℕ) → h.sz x ≤ j → j < l.maxlevel → h.next (pred_of j) j ≢ x
  next-pred_of_ne j le lt =
      ne_head (at h.sz j vs) (has-at x h.sz j vs has_out.1)
        (Chain-drop h.next l.header j l.header (at h.sz j us) (at h.sz j vs) (Chain-off j le lt))
    where
      ne_head :
          (bs : List ℕ)
          → has x bs ≡ false
          → Chain h.next l.header j (pred_of j) bs
          → h.next (pred_of j) j ≢ x
      ne_head [] out c e = has_out.4 (sym e ∙ c)
      ne_head (b ∷ bs) out c e = ground (arith, c.0)

  module _ (f : ℕ → ℕ → ℕ) (unlinked : Unlinked h.next f x pred_of (h.sz x)) where
    pub next-own : (j : ℕ) → f x j ≡ h.next x j
    next-own j = ground (arith, unlinked j x, ne-pred_of j)

    abbrev pub list' : SkipList D
    list' = record l {
      curlevel = height h.sz (us ++ vs);
      tail = if h.next x 0 == l.header then pred_of 0 else l.tail;
      nodenum = uint_dec l.nodenum;
    }

    chain' : (j : ℕ) → j < l.maxlevel → Chain f l.header j l.header (at h.sz j (us ++ vs))
    chain' j lt =
        subst (Chain f l.header j l.header) (sym (at-append h.sz j us vs))
          (elim (dec_lt j (h.sz x)) [
            | yes on ↦
                Chain-remove h.next l.header j f l.header x (at h.sz j us) (at h.sz j vs)
                  (subst (λ z. (has l.header z ≡ false) × Distinct z) (at_on j on)
                    (has-at l.header h.sz j _ inv.apart.0, Distinct-at h.sz j _ inv.apart.1))
                  (λ a. ground (arith, unlinked j a)) (Chain-on j on)
            | no off ↦
                Chain-frame h.next l.header j f l.header (at h.sz j us ++ at h.sz j vs)
                  (λ a e. ground (arith, unlinked j a)) (Chain-off j (omega arith) lt)
          ])

    nodes' : All (λ c. IsNode (record h { next = f }) (height h.sz (us ++ vs)) c.0 c.1) (us ++ vs)
    nodes' =
        let kept : All (λ c. IsNode h l.curlevel c.0 c.1) (us ++ vs) =
          All-append _ us vs (All-append_left _ us ((x, v) ∷ vs) inv.nodes)
            (All-append_right _ us ((x, v) ∷ vs) inv.nodes).1 in
        All-mono _ _
          (λ c p. record { holds = p.0.holds; full = p.0.full; pos = p.0.pos; low = p.1 })
          (us ++ vs)
          (All-zip _ _ (us ++ vs) kept
            (All-le-height h.sz (height h.sz (us ++ vs)) (us ++ vs) (omega arith)))

    last' : list'.tail ≡ last_or l.header (addrs (us ++ vs))
    last' =
        let next_x : h.next x 0 ≡ head_or l.header (at h.sz 0 vs) =
          Chain-head_or h.next l.header 0 x (at h.sz 0 vs)
            (Chain-drop h.next l.header 0 l.header (at h.sz 0 us) (x ∷ at h.sz 0 vs)
              (Chain-on 0 own.pos)).1 in
        let zero_us : at h.sz 0 us ≡ addrs us =
          at_zero h.sz us
            (All-mono _ _ (λ c p. p.pos) us (All-append_left _ us ((x, v) ∷ vs) inv.nodes)) in
        let zero_vs : at h.sz 0 vs ≡ addrs vs =
          at_zero h.sz vs
            (All-mono _ _ (λ c p. p.pos) vs (All-append_right _ us ((x, v) ∷ vs) inv.nodes).1) in
        rw (addrs-append us vs, zero_us)
          (tail_remove l.header x (h.next x 0) l.tail (addrs us) (addrs vs)
            (next_x ∙ ap (head_or l.header) zero_vs) has_out.3
            (inv.last ∙ ap (last_or l.header) (addrs-append us ((x, v) ∷ vs))))

    pub Removed-IsSkipList :
        l.nodenum < 2 ^ 32 → IsSkipList (record h { next = f }) list' (us ++ vs)
    unfolding uint_dec
    Removed-IsSkipList small = record {
      order = inv.order;
      magic = inv.magic;
      has_header = inv.has_header;
      small = inv.small;
      top = refl;
      fits = omega (
        arith,
        inv.fits,
        inv.top,
        height-append h.sz us vs,
        height-append h.sz us ((x, v) ∷ vs),
        height_pos h.sz vs,
      );
      room = inv.room;
      apart =
          subst (λ z. Distinct (l.header ∷ z)) (sym (addrs-append us vs))
            (Distinct-remove x (l.header ∷ addrs us) (addrs vs) apart_addrs);
      nodes = nodes';
      sorted = Sorted-remove l.cmp (x, v) us vs inv.sorted;
      chains = chain';
      count = omega (arith, inv.count, length-append us vs, length-append us ((x, v) ∷ vs));
      last = last';
    }
