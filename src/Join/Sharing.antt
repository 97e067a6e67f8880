-- ===== src/Join/Sharing.antt =====
-- `MySKLintersect` of src/skl_join.c.
use myskl.Prelude.{
  ℕ, suc, ◌+◌, ◌≡◌, ap, ◌∙◌, subst, true, false, ◌||◌, some, List, [], ◌∷◌, ◌++◌, arith, length,
  ◌>>=◌, ==_self, ne→==,
}
use myskl.Heap.{Heap, load}
use myskl.Heap.Chain.{has, head_or, has-append}
use myskl.SkipList.{Status, SkipList, status_ok, nd_mode}
use myskl.SkipList.Cells.{Cells, addrs, Sorted, IsOrder}
use myskl.SkipList.Invariant.{IsSkipList}
use myskl.SkipList.Guards.{verify_list-true}
use myskl.SkipList.Frame.{IsSkipList-frame}
use myskl.SkipList.Common.{common}
use myskl.Destroy.Freed.{Chain-addrs}
use myskl.Join.{CopyFunc}
use myskl.Join.Intersect.{intersect_loop, intersect, intersect_lists}
use myskl.Join.Ready.{Copies, IsReady}
use myskl.Join.Merged.{IsMerged, nil-IsMerged, cells-IsSource, load-header, IsSource-mono}
use myskl.Join.Passing.{Follows, none-IsMerged}
use myskl.Join.Crossing.{intersect_loop-IsMerged}

module _ {D : Type 0} {h : Heap D} {keep : List ℕ} {place : ℕ → ℕ} {cpyfunc : CopyFunc D}
    (copies : Copies cpyfunc place) (source1 source2 : SkipList D) (ord : IsOrder source1.cmp) where
  intersect-IsMerged :
      (zs ws : Cells D)
      → source1.nodenum ≡ length zs
      → source2.nodenum ≡ length ws
      → Follows h keep source1.header source1.header zs
      → Follows h keep source2.header source2.header ws
      → load h source1.header 0 ≡ some (head_or source1.header (addrs zs))
      → load h source2.header 0 ≡ some (head_or source2.header (addrs ws))
      → Sorted source1.cmp zs
      → Sorted source1.cmp ws
      → {l : SkipList D} {ys : Cells D} → IsReady h keep place (common source1.cmp zs ws) h l ys
      → (status : Status) × (l' : SkipList D) × (h' : Heap D) × (intersect source1 source2 l h
            cpyfunc
          ≡ some (status, l', h'))
        × IsMerged h keep place false (common source1.cmp zs ws) h l ys status l' h'
  unfolding intersect
  intersect-IsMerged [] ws c1 c2 f1 f2 load1 load2 s1 s2 {l} ready =
      (status_ok, l, h, rw (load1, ◌>>=◌, load2, ◌>>=◌, ==_self source1.header), nil-IsMerged ready)
  intersect-IsMerged ((a, v) ∷ zs) [] c1 c2 f1 f2 load1 load2 s1 s2 {l} {ys} ready =
      let first = ne→== a source1.header f1.cells.0.inner in
      (
        status_ok,
        l,
        h,
        rw (load1, ◌>>=◌, load2, ◌>>=◌, first, ==_self source2.header),
        none-IsMerged source1.cmp ((a, v) ∷ zs) ready,
      )
  intersect-IsMerged ((a, v) ∷ zs) ((b, u) ∷ ws) c1 c2 f1 f2 load1 load2 s1 s2 {l} ready =
      let first1 = ne→== a source1.header f1.cells.0.inner in
      let first2 = ne→== b source2.header f2.cells.0.inner in
      let fuel = source1.nodenum + source2.nodenum + 1 in
      let (ended, l', h', run, merged) =
        intersect_loop-IsMerged h keep copies source1 ord source2.header fuel ((a, v) ∷ zs)
          ((b, u) ∷ ws) (omega (arith, c1, c2)) source1.header source2.header f1 f2 s1 s2 ready in
      let run' =
        ap (λ n. intersect_loop source1 cpyfunc nd_mode fuel l h a b n source2.nodenum) c1
        ∙ ap (intersect_loop source1 cpyfunc nd_mode fuel l h a b (suc (length zs))) c2
        ∙ run in
      (_, l', h', rw (load1, ◌>>=◌, load2, ◌>>=◌, first1, first2, run', ◌>>=◌), merged)

module _ {D : Type 0} {h : Heap D} {source1 source2 target : SkipList D} {xs1 xs2 ys : Cells D}
    {place : ℕ → ℕ} {cpyfunc : CopyFunc D} where
  -- `MySKLintersect` of two well-formed lists with the same comparison into a third one, which is
  -- apart from both, with places for the copies, ends without an access out of bounds. What it
  -- copies are the nodes of the first list that compare equal to some node of the second, of those
  -- that are equal the first only, in their order: all of them with success, or those in front of
  -- a node for whose copy there is no memory with MYSKL_MEM_EXHAUSTED, which happens only if
  -- memory is refused. The target is well formed and holds its old cells, each copy put in front
  -- of the first that is not less; the two sources are well formed and hold the same cells.
  pub intersect_lists-IsMerged :
      IsSkipList h source1 xs1
      → IsSkipList h source2 xs2
      → source2.cmp ≡ source1.cmp
      → Copies cpyfunc place
      → (let keep = (source1.header ∷ addrs xs1) ++ source2.header ∷ addrs xs2 in
          IsReady h keep place (common source1.cmp xs1 xs2) h target ys)
      → (status : Status) × (target' : SkipList D) × (h' : Heap D) × (intersect_lists source1
            source2 target h
            (some cpyfunc)
          ≡ some (status, target', h'))
        × IsMerged h
            ((source1.header ∷ addrs xs1) ++ source2.header ∷ addrs xs2)
            place
            false
            (common source1.cmp xs1 xs2)
            h
            target
            ys
            status
            target'
            h'
        × IsSkipList h' source1 xs1
        × IsSkipList h' source2 xs2
  unfolding intersect_lists
  intersect_lists-IsMerged inv1 inv2 same_cmp copies ready =
      let keep1 = source1.header ∷ addrs xs1 in
      let keep2 = source2.header ∷ addrs xs2 in
      let left : (a : ℕ) → has a keep1 ≡ true → has a (keep1 ++ keep2) ≡ true =
        λ a e. has-append a keep1 keep2 ∙ ap (λ b. b || has a keep2) e in
      let right : (a : ℕ) → has a keep2 ≡ true → has a (keep1 ++ keep2) ≡ true =
        λ a e. ground (arith, has-append a keep1 keep2, e) in
      let (status, target', h', run, merged) =
        intersect-IsMerged copies source1 source2 inv1.order xs1 xs2 inv1.count inv2.count
          (record {
            chain = Chain-addrs inv1;
            cells = IsSource-mono h keep1 _ source1.header left xs1 (cells-IsSource inv1);
          })
          (record {
            chain = Chain-addrs inv2;
            cells = IsSource-mono h keep2 _ source2.header right xs2 (cells-IsSource inv2);
          })
          (load-header inv1) (load-header inv2) inv1.sorted
          (subst (λ cmp. Sorted cmp xs2) same_cmp inv2.sorted) ready in
      (
        status,
        target',
        h',
        rw (verify_list-true inv1, verify_list-true inv2, verify_list-true ready.inv) run,
        merged,
        IsSkipList-frame h' (λ a e. merged.same a (left a e)) inv1,
        IsSkipList-frame h' (λ a e. merged.same a (right a e)) inv2,
      )
