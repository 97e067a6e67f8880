-- ===== src/SkipList/Frame.antt =====
-- What a list stands for depends on its own nodes only.
use myskl.Prelude.{ℕ, ◌≡◌, true, [], ◌∷◌, arith, All, All-mono, sym, subst, ◌∙◌, All-zip}
use myskl.Heap.{Heap}
use myskl.Heap.Chain.{has, Chain, Chain-frame}
use myskl.Rand.{SklRand}
use myskl.SkipList.{SkipList}
use myskl.SkipList.Cells.{Cells, addrs, at, at_congr, height_congr}
use myskl.SkipList.Invariant.{IsSkipList}

module _ {D : Type 0} where
  -- Node `a` is the same in both heaps.
  pub record SameNode (h h' : Heap D) (a : ℕ) : Type 0 where
    pub next : (j : ℕ) → h'.next a j ≡ h.next a j
    pub cap : h'.cap a ≡ h.cap a
    pub sz : h'.sz a ≡ h.sz a
    pub val : h'.val a ≡ h.val a

  pub SameNode-trans :
      {h h' h'' : Heap D} {a : ℕ} → SameNode h h' a → SameNode h' h'' a → SameNode h h'' a
  SameNode-trans s t = record {
    next = λ j. t.next j ∙ s.next j;
    cap = t.cap ∙ s.cap;
    sz = t.sz ∙ s.sz;
    val = t.val ∙ s.val;
  }

  -- The addresses of a list: its header and its nodes.
  abbrev pub IsIn : ℕ → SkipList D → Cells D → Type 0
  IsIn a l xs = has a (l.header ∷ addrs xs) ≡ true

  pub All-has :
      (Q : ℕ × D → Type 0) (xs : Cells D)
      → ((c : ℕ × D) → has c.0 (addrs xs) ≡ true → Q c)
      → All Q xs
  All-has Q [] f = tt
  All-has Q ((a, v) ∷ xs) f = (f (a, v) (ground arith), All-has Q xs (λ c e. f c (ground arith)))

  has-at-addrs :
      (sz : ℕ → ℕ) (j a : ℕ) (xs : Cells D) → has a (at sz j xs) ≡ true → has a (addrs xs) ≡ true
  has-at-addrs sz j a [] e = e
  has-at-addrs sz j a ((b, v) ∷ xs) e = ground (arith, has-at-addrs sz j a xs)

  pub IsSkipList-frame :
      {h : Heap D} (h' : Heap D) {l : SkipList D} {xs : Cells D}
      → ((a : ℕ) → IsIn a l xs → SameNode h h' a)
      → IsSkipList h l xs
      → IsSkipList h' l xs
  IsSkipList-frame {h} h' {l} {xs} same inv =
      let sizes : All (λ c. h'.sz c.0 ≡ h.sz c.0) xs =
        All-has _ xs (λ c e. (same c.0 (ground arith)).sz) in
      record {
        order = inv.order;
        magic = inv.magic;
        has_header = inv.has_header;
        small = inv.small;
        top = inv.top ∙ sym (height_congr h.sz h'.sz xs sizes);
        fits = inv.fits;
        room = (same l.header (ground arith)).cap ∙ inv.room;
        apart = inv.apart;
        nodes =
            All-mono _ _
              (λ c p. record {
                holds = p.1.val ∙ p.0.holds;
                full = p.1.cap ∙ p.0.full ∙ sym p.1.sz;
                pos = omega (arith, p.0.pos, p.1.sz);
                low = omega (arith, p.0.low, p.1.sz);
              })
              xs (All-zip _ _ xs inv.nodes (All-has _ xs (λ c e. same c.0 (ground arith))));
        sorted = inv.sorted;
        chains = λ i lt.
            subst (Chain h'.next l.header i l.header) (sym (at_congr h.sz h'.sz i xs sizes)) (
              Chain-frame h.next l.header i h'.next l.header (at h.sz i xs)
                (λ a e. (same a (ground (arith, has-at-addrs h.sz i a xs))).next i)
                (inv.chains i lt));
        count = inv.count;
        last = inv.last;
      }

  -- The state of the generator is no part of what the list stands for.
  pub IsSkipList-rng_item :
      {h : Heap D} {l : SkipList D} {xs : Cells D} (r : SklRand)
      → IsSkipList h l xs
      → IsSkipList h (record l { rng_item = r }) xs
  IsSkipList-rng_item r inv = record {
    order = inv.order;
    magic = inv.magic;
    has_header = inv.has_header;
    small = inv.small;
    top = inv.top;
    fits = inv.fits;
    room = inv.room;
    apart = inv.apart;
    nodes = inv.nodes;
    sorted = inv.sorted;
    chains = inv.chains;
    count = inv.count;
    last = inv.last;
  }
