-- ===== src/Join/Passing.antt =====
-- The steps of `intersect` of src/skl_join.c behind equal cells of its two sources.
use myskl.Prelude.{
  ℕ, suc, ◌≡◌, refl, sym, ◌∙◌, subst, true, false, some, List, [], ◌∷◌, arith, inl, inr, All,
  length, ◌>>=◌, Bool-cases, Ordering, ◌==◌,
}
use myskl.Heap.{Heap, load}
use myskl.Heap.Chain.{has, Chain, head_or}
use myskl.SkipList.{SkipList, status_ok, is_eq, is_lt, eq, less, nd_mode}
use myskl.SkipList.Cells.{Cells, addrs}
use myskl.SkipList.Frame.{SameNode}
use myskl.SkipList.Common.{common, firsts, skip_cells, common-nil}
use myskl.Join.Intersect.{skip_equal, pass_equal}
use myskl.Join.Ready.{IsReady}
use myskl.Join.Merged.{IsMerged, IsSource, nil-IsMerged, load-next}

-- The cells `zs` follow the node `p` of the list with the given header.
pub record Follows {D : Type 0} (h0 : Heap D) (keep : List ℕ) (header p : ℕ) (zs : Cells D)
    : Type 0 where
  pub chain : Chain h0.next header 0 p (addrs zs)
  pub cells : All (IsSource h0 keep header) zs

module _ {D : Type 0} {h0 h : Heap D} {keep : List ℕ} (l : SkipList D)
    (same : (a : ℕ) → has a keep ≡ true → SameNode h0 h a) where
  node_val : {header : ℕ} {c : ℕ × D} → IsSource h0 keep header c → h.val c.0 ≡ some c.1
  node_val {c} src = (same c.0 src.keeps).val ∙ src.holds

  pub eq-some :
      {header1 header2 : ℕ} {c d : ℕ × D}
      → IsSource h0 keep header1 c
      → IsSource h0 keep header2 d
      → eq l h c.0 d.0 ≡ some (is_eq (l.cmp c.1 d.1))
  unfolding eq
  eq-some x y = rw (node_val x, ◌>>=◌, node_val y, ◌>>=◌)

  pub less-some :
      {header1 header2 : ℕ} {c d : ℕ × D}
      → IsSource h0 keep header1 c
      → IsSource h0 keep header2 d
      → less l h c.0 d.0 ≡ some (is_lt (l.cmp c.1 d.1))
  unfolding less
  less-some x y = rw (node_val x, ◌>>=◌, node_val y, ◌>>=◌)

  -- The loop ends at the last of the cells that compare equal.
  skip_equal-Follows :
      (header : ℕ) (zs : Cells D) (a : ℕ) (v : D)
      → IsSource h0 keep header (a, v)
      → Follows h0 keep header a zs
      → let rest = skip_cells l.cmp v zs in
        (a' : ℕ) × (skip_equal l h (suc (length zs)) a ≡ some (a', length rest))
        × (load h a' 0 ≡ some (head_or header (addrs rest)))
        × Follows h0 keep header a' rest
  unfolding skip_equal
  skip_equal-Follows header [] a v src f = (a, refl, load-next [] src (same a src.keeps) f.chain, f)
  skip_equal-Follows header ((b, w) ∷ zs) a v src f =
      let seen = load-next (addrs ((b, w) ∷ zs)) src (same a src.keeps) f.chain in
      let more : (suc (length zs) == 0) ≡ false = ground arith in
      let test = eq-some f.cells.0 src in
      elim (Bool-cases (is_eq (l.cmp w v))) [
        | inl equal ↦
            let (a', run, next, f') =
              skip_equal-Follows header zs b w f.cells.0
                (record { chain = f.chain.1; cells = f.cells.1 }) in
            rw equal (a', rw (skip_equal, more, seen, ◌>>=◌, test, ◌>>=◌, equal) run, next, f')
        | inr other ↦ rw other (a, rw (skip_equal, more, seen, ◌>>=◌, test, ◌>>=◌, other), seen, f)
      ]

pub none-IsMerged :
    {D : Type 0} {h0 h : Heap D} {keep : List ℕ} {place : ℕ → ℕ} {l : SkipList D} {ys : Cells D}
    (cmp : D → D → Ordering) (zs : Cells D)
    → IsReady h0 keep place (common cmp zs []) h l ys
    → IsMerged h0 keep place false (common cmp zs []) h l ys status_ok l h
none-IsMerged {h0} {h} {keep} {place} {l} {ys} cmp zs ready =
    let none = common-nil cmp (firsts cmp zs) in
    subst (λ cs. IsMerged h0 keep place false cs h l ys status_ok l h) (sym none)
      (nil-IsMerged (subst (λ cs. IsReady h0 keep place cs h l ys) none ready))

module _ {D : Type 0} {h0 : Heap D} {keep : List ℕ} (source1 : SkipList D) (header2 : ℕ) where
  -- One step behind two cells that compare equal.
  pub pass_equal-Follows :
      {h : Heap D} (same : (a : ℕ) → has a keep ≡ true → SameNode h0 h a)
      → (zs ws : Cells D) (a : ℕ) (v : D) (b : ℕ) (u : D) → IsSource h0 keep source1.header (a, v)
      → Follows h0 keep source1.header a zs
      → IsSource h0 keep header2 (b, u)
      → Follows h0 keep header2 b ws
      → let zs' = skip_cells source1.cmp v zs in
        let ws' = skip_cells source1.cmp u ws in
        (a' : ℕ) × (b' : ℕ) × (pass_equal source1 h nd_mode a b (suc (length zs)) (suc (length ws))
          ≡ some (
            head_or source1.header (addrs zs'),
            head_or header2 (addrs ws'),
            length zs',
            length ws',
          ))
        × Follows h0 keep source1.header a' zs'
        × Follows h0 keep header2 b' ws'
  unfolding pass_equal
  pass_equal-Follows same zs ws a v b u src1 f1 src2 f2 =
      let (a', run1, next1, g1) = skip_equal-Follows source1 same source1.header zs a v src1 f1 in
      let (b', run2, next2, g2) = skip_equal-Follows source1 same header2 ws b u src2 f2 in
      (a', b', rw (run1, ◌>>=◌, run2, ◌>>=◌, next1, ◌>>=◌, next2, ◌>>=◌), g1, g2)
