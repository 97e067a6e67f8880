-- ===== src/Join/Ready.antt =====
-- The heap between two rounds of a loop that copies the nodes of a list into another.
use myskl.Prelude.{
  ℕ, ◌+◌, ◌^◌, ◌<◌, ◌≡◌, ◌≢◌, refl, ap, Bool, true, false, ◌&&◌, ◌||◌, some, List, [], ◌∷◌, arith,
  map, length, All, ◌==◌, Ordering, if◌then◌else◌, none,
}
use myskl.Heap.{Heap, update}
use myskl.Heap.Chain.{has, has-append, Distinct}
use myskl.Heap.Writes.{update_self, update_ne}
use myskl.SkipList.{SkipList, null}
use myskl.SkipList.Cells.{
  Cells, addrs, addrs-append, before, after, before-append-after, insert_cell, length-insert_cell,
}
use myskl.SkipList.Invariant.{IsSkipList}
use myskl.SkipList.Frame.{SameNode, IsSkipList-frame, SameNode-trans}
use myskl.SkipList.Find.{contains}
use myskl.Insert.Plain.{IsFresh, Inserted}
use myskl.Join.{CopyFunc}
use myskl.Insert.Nodes.{starved}

module _ {D : Type 0} where
  -- The heap after the client has made a node `n` with data `v`.
  abbrev pub put : Heap D → ℕ → D → Heap D
  put h n v = record h { val = update h.val n (some v) }

  -- The heap after a copy has been thrown away.
  abbrev pub dropped : ℕ → Heap D → Heap D
  dropped n h = record h { val = λ a. if a == n then none else h.val a }

  -- What is documented of `cpyfunc`: it makes a new node with the data of the one that it is given;
  -- the copy of node `x` is at `place x`.
  abbrev pub Copies : CopyFunc D → (ℕ → ℕ) → Type 0
  Copies cpyfunc place =
      (h : Heap D) (x : ℕ) (v : D) → h.val x ≡ some v → cpyfunc h x ≡ (place x, put h (place x) v)

  -- The specification: a cell is added unless duplicates are refused (`nd`) and it is one.
  abbrev pub add_cell : Bool → (D → D → Ordering) → D → ℕ → Cells D → Cells D
  add_cell nd cmp d x ys = if nd && contains cmp d ys then ys else insert_cell cmp d x ys

  abbrev pub merge_cells : Bool → (D → D → Ordering) → (ℕ → ℕ) → Cells D → Cells D → Cells D
  merge_cells nd cmp place [] ys = ys
  merge_cells nd cmp place ((a, v) ∷ zs) ys =
      merge_cells nd cmp place zs (add_cell nd cmp v (place a) ys)

  pub has-insert_cell :
      (cmp : D → D → Ordering) (d : D) (x a : ℕ) (xs : Cells D)
      → has a (addrs (insert_cell cmp d x xs)) ≡ (a == x) || has a (addrs xs)
  has-insert_cell cmp d x a xs = ground (
    arith,
    ap (has a) (addrs-append (before cmp d xs) ((x, d) ∷ after cmp d xs)),
    has-append a (addrs (before cmp d xs)) (x ∷ addrs (after cmp d xs)),
    ap (has a) (addrs-append (before cmp d xs) (after cmp d xs)),
    has-append a (addrs (before cmp d xs)) (addrs (after cmp d xs)),
    ap (λ ys. has a (addrs ys)) (before-append-after cmp d xs),
  )

  -- A place for a copy: it is neither NULL nor in the target, nor one of the addresses `keep`.
  pub record IsSpare (keep : List ℕ) (header : ℕ) (ys : Cells D) (n : ℕ) : Type 0 where
    pub real : n ≢ null
    pub apart : n ≢ header
    pub out : has n (addrs ys) ≡ false
    pub outside : has n keep ≡ false

  -- The target `l` stands for `ys`, the addresses `keep` are as in the heap `h0`, and the cells `zs`
  -- can be copied: their places are spare and differ.
  pub record IsReady (h0 : Heap D) (keep : List ℕ) (place : ℕ → ℕ) (zs : Cells D) (h : Heap D)
      (l : SkipList D) (ys : Cells D) : Type 0 where
    pub inv : IsSkipList h l ys
    pub same : (a : ℕ) → has a keep ≡ true → SameNode h0 h a
    pub apart : (a : ℕ) → has a keep ≡ true → has a (l.header ∷ addrs ys) ≡ false
    pub spare : All (λ c. IsSpare keep l.header ys (place c.0)) zs
    pub distinct : Distinct (map (λ c. place c.0) zs)
    pub fits : length ys + length zs < 2 ^ 32

module _ {D : Type 0} {h0 : Heap D} {keep : List ℕ} {place : ℕ → ℕ} {a : ℕ} {v : D} {zs : Cells D}
    {h : Heap D} {l : SkipList D} {ys : Cells D}
    (ready : IsReady h0 keep place ((a, v) ∷ zs) h l ys) where
  abbrev pub made : Heap D
  made = put h (place a) v

  pub made-SameNode : (b : ℕ) → b ≢ place a → SameNode h made b
  made-SameNode b ne = record {
    next = λ j. refl;
    cap = refl;
    sz = refl;
    val = update_ne h.val (place a) (some v) ne;
  }

  pub made-IsSkipList : IsSkipList made l ys
  made-IsSkipList =
      IsSkipList-frame made
        (λ b e. made-SameNode b (ground (arith, ready.spare.0.apart, ready.spare.0.out))) ready.inv

  pub made-IsFresh : IsFresh made l ys (place a) v
  made-IsFresh = record {
    apart = ready.spare.0.apart;
    out = ready.spare.0.out;
    holds = update_self h.val (place a) (some v);
  }

  pub place-ne-keep : (b : ℕ) → has b keep ≡ true → b ≢ place a
  place-ne-keep b e = ground (arith, ready.spare.0.outside)

  pub made-keep : (b : ℕ) → has b keep ≡ true → SameNode h0 made b
  made-keep b e = SameNode-trans (ready.same b e) (made-SameNode b (place-ne-keep b e))

  IsSpare-insert_cell :
      (zs' : Cells D)
      → has (place a) (map (λ c. place c.0) zs') ≡ false
      → All (λ c. IsSpare keep l.header ys (place c.0)) zs'
      → (header : ℕ) → header ≡ l.header
      → All (λ c. IsSpare keep header (insert_cell l.cmp v (place a) ys) (place c.0)) zs'
  IsSpare-insert_cell [] differ spare header e = tt
  IsSpare-insert_cell ((b, w) ∷ zs') differ spare header e = (
    record {
      real = spare.0.real;
      apart = ground (arith, spare.0.apart);
      out = ground (arith, has-insert_cell l.cmp v (place a) (place b) ys, spare.0.out);
      outside = spare.0.outside;
    },
    IsSpare-insert_cell zs' (ground arith) spare.1 header e,
  )

  -- After the copy has been inserted.
  pub added-IsReady :
      {h' : Heap D} {l' : SkipList D}
      → Inserted made l ys (place a) v h' l'
      → IsReady h0 keep place zs h' l' (insert_cell l.cmp v (place a) ys)
  added-IsReady ins = record {
    inv = ins.kept;
    same =
        λ b e. SameNode-trans (made-keep b e) (ins.others b (ready.apart b e) (place-ne-keep b e));
    apart = λ b e. ground (
      arith,
      ready.apart b e,
      ins.same_header,
      has-insert_cell l.cmp v (place a) b ys,
      place-ne-keep b e,
    );
    spare = IsSpare-insert_cell zs ready.distinct.0 ready.spare.1 _ ins.same_header;
    distinct = ready.distinct.1;
    fits = omega (arith, ready.fits, length-insert_cell l.cmp v (place a) ys);
  }

  dropped-SameNode : (b : ℕ) → b ≢ place a → SameNode made (dropped (place a) made) b
  dropped-SameNode b ne = record {
    next = λ j. refl;
    cap = refl;
    sz = refl;
    val = ground (arith, ne);
  }

  pub dropped-IsReady : IsReady h0 keep place zs (dropped (place a) made) l ys
  dropped-IsReady = record {
    inv =
        IsSkipList-frame (dropped (place a) made)
          (λ b e. dropped-SameNode b (ground (arith, ready.spare.0.apart, ready.spare.0.out)))
          made-IsSkipList;
    same = λ b e. SameNode-trans (made-keep b e) (dropped-SameNode b (place-ne-keep b e));
    apart = ready.apart;
    spare = ready.spare.1;
    distinct = ready.distinct.1;
    fits = omega (arith, ready.fits);
  }

  -- After its array has been refused.
  pub starved-keep : (b : ℕ) → has b keep ≡ true → SameNode h0 (starved made (place a)) b
  starved-keep b e = SameNode-trans (made-keep b e) (record {
    next = λ j. refl;
    cap = update_ne h.cap (place a) 0 (place-ne-keep b e);
    sz = refl;
    val = refl;
  })
