-- ===== src/Join/Merged.antt =====
-- What the loops of `join` and `MySKLcopy` leave behind, at whichever node they stop.
use myskl.Prelude.{
  ℕ, ◌<◌, ◌≡◌, ◌≢◌, refl, ap, ◌∙◌, subst, Bool, true, false, some, List, [], ◌∷◌, ◌++◌, arith, ◌⊎◌,
  inl, inr, All, Ordering, All-mono, All-zip, sym,
}
use myskl.Heap.{Heap, load}
use myskl.Heap.Chain.{has, Chain, head_or, Chain-head_or}
use myskl.Heap.Writes.{load-some}
use myskl.SkipList.{Status, SkipList, status_ok, mem_exhausted}
use myskl.SkipList.Cells.{Cells, addrs}
use myskl.SkipList.Invariant.{IsSkipList}
use myskl.SkipList.Frame.{SameNode, All-has}
use myskl.Gen.{gen_level}
use myskl.Insert.Nodes.{starved}
use myskl.Join.Ready.{IsReady, merge_cells, add_cell, made, starved-keep}
use myskl.SkipList.Guards.{maxlevel_pos}
use myskl.Destroy.Freed.{Chain-addrs}

module _ {D : Type 0} where
  -- The loop has copied the cells `done` and has stopped in front of the cells `left`: at the end
  -- with success, before it only for want of memory. The target stands for the merge of the copied
  -- cells, and the addresses `keep` are as in `h0`.
  pub record IsMerged (h0 : Heap D) (keep : List ℕ) (place : ℕ → ℕ) (nd : Bool) (zs : Cells D)
      (h : Heap D) (l : SkipList D) (ys : Cells D) (status : Status) (l' : SkipList D) (h' : Heap D)
      : Type 0 where
    pub copied : Cells D
    pub left : Cells D
    pub split : zs ≡ copied ++ left
    pub kept : IsSkipList h' l' (merge_cells nd l.cmp place copied ys)
    pub same : (a : ℕ) → has a keep ≡ true → SameNode h0 h' a
    pub ended :
        ((status ≡ status_ok) × (left ≡ []))
        ⊎ ((status ≡ mem_exhausted) × (left ≢ []) × (k : ℕ) × (h.avail k ≡ false))

  -- A cell of the source that the loop can stand at.
  pub record IsSource (h0 : Heap D) (keep : List ℕ) (header : ℕ) (c : ℕ × D) : Type 0 where
    pub holds : h0.val c.0 ≡ some c.1
    pub wide : 0 < h0.cap c.0
    pub inner : c.0 ≢ header
    pub keeps : has c.0 keep ≡ true

module _ {D : Type 0} {h0 : Heap D} {keep : List ℕ} {place : ℕ → ℕ} {nd : Bool} {h : Heap D}
    {l : SkipList D} {ys : Cells D} where
  pub nil-IsMerged :
      IsReady h0 keep place [] h l ys → IsMerged h0 keep place nd [] h l ys status_ok l h
  nil-IsMerged ready = record {
    copied = [];
    left = [];
    split = refl;
    kept = ready.inv;
    same = ready.same;
    ended = inl (refl, refl);
  }

  -- A round that has copied the cell, and the rounds after it.
  pub cons-IsMerged :
      (a : ℕ) (v : D) {zs : Cells D} {h1 : Heap D} {l1 : SkipList D}
      → l1.cmp ≡ l.cmp
      → h1.avail ≡ h.avail
      → {status : Status} {l' : SkipList D} {h' : Heap D}
      → IsMerged h0 keep place nd zs h1 l1 (add_cell nd l.cmp v (place a) ys) status l' h'
      → IsMerged h0 keep place nd ((a, v) ∷ zs) h l ys status l' h'
  cons-IsMerged a v {l1} same_cmp same_avail {l'} {h'} m = record {
    copied = (a, v) ∷ m.copied;
    left = m.left;
    split = ap (λ cs. (a, v) ∷ cs) m.split;
    kept =
        subst
          (λ (c : D → D → Ordering).
            IsSkipList h' l' (merge_cells nd c place m.copied (add_cell nd l.cmp v (place a) ys)))
          same_cmp m.kept;
    same = m.same;
    ended = elim m.ended [
      | inl done ↦ inl done
      | inr (out, more, k, refused) ↦
          inr (out, more, k, sym (ap (λ (f : ℕ → Bool). f k) same_avail) ∙ refused)
    ];
  }

  -- A round whose allocation has failed.
  pub starved-IsMerged :
      {a : ℕ} {v : D} {zs : Cells D} (ready : IsReady h0 keep place ((a, v) ∷ zs) h l ys)
      → h.avail h.stat.calls ≡ false
      → IsSkipList (starved (made ready) (place a)) (gen_level l).1 ys
      → IsMerged h0 keep place nd
          ((a, v) ∷ zs)
          h
          l
          ys
          mem_exhausted
          (gen_level l).1
          (starved (made ready) (place a))
  starved-IsMerged {a} {v} {zs} ready no_room kept = record {
    copied = [];
    left = (a, v) ∷ zs;
    split = refl;
    kept = kept;
    same = starved-keep ready;
    ended = inr (refl, (λ e. cc), h.stat.calls, no_room);
  }

-- The step to the next node of the source, in a heap where the source is as it was.
pub load-next :
    {D : Type 0} {h0 h : Heap D} {keep : List ℕ} {header : ℕ} {c : ℕ × D} (ns : List ℕ)
    → IsSource h0 keep header c
    → SameNode h0 h c.0
    → Chain h0.next header 0 c.0 ns
    → load h c.0 0 ≡ some (head_or header ns)
load-next {h0} {h} {header} {c} ns source same chain =
    load-some h c.0 0 (omega (arith, source.wide, same.cap))
    ∙ ap some (same.next 0 ∙ Chain-head_or h0.next header 0 c.0 ns chain)

-- Each cell of a well-formed list is one that the loop can stand at.
pub cells-IsSource :
    {D : Type 0} {h : Heap D} {l : SkipList D} {xs : Cells D}
    → IsSkipList h l xs
    → All (IsSource h (l.header ∷ addrs xs) l.header) xs
cells-IsSource {l} {xs} inv =
    All-mono _ _
      (λ c p. record {
        holds = p.0.holds;
        wide = omega (arith, p.0.full, p.0.pos);
        inner = ground (arith, p.1, inv.apart.0);
        keeps = ground (arith, p.1);
      })
      xs (All-zip _ _ xs inv.nodes (All-has (λ c. has c.0 (addrs xs) ≡ true) xs (λ c e. e)))

-- The first node of a well-formed list
pub load-header :
    {D : Type 0} {h : Heap D} {l : SkipList D} {xs : Cells D}
    → IsSkipList h l xs
    → load h l.header 0 ≡ some (head_or l.header (addrs xs))
load-header {h} {l} {xs} inv =
    load-some h l.header 0 (omega (arith, inv.room, maxlevel_pos inv))
    ∙ ap some (Chain-head_or h.next l.header 0 l.header (addrs xs) (Chain-addrs inv))

pub IsSource-mono :
    {D : Type 0} (h0 : Heap D) (keep keep' : List ℕ) (header : ℕ)
    → ((a : ℕ) → has a keep ≡ true → has a keep' ≡ true)
    → (zs : Cells D) → All (IsSource h0 keep header) zs
    → All (IsSource h0 keep' header) zs
IsSource-mono h0 keep keep' header wider zs all =
    All-mono _ _
      (λ c s. record { holds = s.holds; wide = s.wide; inner = s.inner; keeps = wider c.0 s.keeps })
      zs all
