-- ===== src/Join/Copying.antt =====
-- `MySKLcopy` of src/skl_ins.c.
use myskl.Prelude.{
  ℕ, zero, suc, ◌<◌, ◌≡◌, ◌∙◌, false, some, List, [], ◌∷◌, arith, inl, inr, All, length, ◌>>=◌,
  ne→==, ==_self, refl,
}
use myskl.Heap.{Heap}
use myskl.Heap.Chain.{Chain, head_or, Chain-head_or}
use myskl.Heap.Writes.{load-some}
use myskl.SkipList.{Status, SkipList, status_ok, rounds, ad_mode}
use myskl.SkipList.Cells.{Cells, addrs}
use myskl.SkipList.Invariant.{IsSkipList}
use myskl.SkipList.Guards.{verify_list-true, maxlevel_pos}
use myskl.SkipList.Frame.{IsSkipList-frame}
use myskl.Destroy.Freed.{Chain-addrs}
use myskl.Join.{CopyFunc, copy_loop, copy}
use myskl.Join.Adds.{insert_plain-Adds}
use myskl.Join.Ready.{Copies, IsReady, put, made, made-IsSkipList, made-IsFresh, added-IsReady}
use myskl.Join.Merged.{
  IsMerged, IsSource, nil-IsMerged, cons-IsMerged, starved-IsMerged, load-next, cells-IsSource,
}

module _ {D : Type 0} {h0 : Heap D} {keep : List ℕ} {place : ℕ → ℕ} {cpyfunc : CopyFunc D}
    (copies : Copies cpyfunc place) (source : SkipList D) where
  pub copied_node :
      {h : Heap D} {l : SkipList D} {ys zs : Cells D} (a : ℕ) (v : D)
      → IsReady h0 keep place ((a, v) ∷ zs) h l ys
      → IsSource h0 keep source.header (a, v)
      → cpyfunc h a ≡ (place a, put h (place a) v)
  copied_node {h} a v ready src = copies h a v ((ready.same a src.keeps).val ∙ src.holds)

  copy_loop-IsMerged :
      (zs : Cells D) (fuel : ℕ)
      → length zs < fuel
      → (p : ℕ) → Chain h0.next source.header 0 p (addrs zs)
      → All (IsSource h0 keep source.header) zs
      → {h : Heap D} {l : SkipList D} {ys : Cells D} → IsReady h0 keep place zs h l ys
      → (status : Status) × (l' : SkipList D) × (h' : Heap D) × (copy_loop source cpyfunc fuel l h
            (head_or source.header (addrs zs))
          ≡ some (status, l', h'))
        × IsMerged h0 keep place false zs h l ys status l' h'
  unfolding copy_loop
  copy_loop-IsMerged zs zero short p chain src ready = absurd (omega arith)
  copy_loop-IsMerged [] (suc fuel) short p chain src {h} {l} ready =
      (status_ok, l, h, rw (copy_loop, ==_self source.header), nil-IsMerged ready)
  copy_loop-IsMerged ((a, v) ∷ zs) (suc fuel) short p chain src {h} {l} ready =
      let h1 = made ready in
      let first = ne→== a source.header src.0.inner in
      let copied = copied_node a v ready src.0 in
      elim (insert_plain-Adds (made-IsSkipList ready) (made-IsFresh ready)
        (omega (arith, ready.fits)) (h1.sz a) ad_mode refl) [
          | inl known ↦ absurd (ground arith)
          | inr (inl (_, no_room, run, kept)) ↦ (
            _,
            _,
            _,
            rw (copy_loop, first, copied, run, ◌>>=◌),
            starved-IsMerged ready no_room kept,
          )
          | inr (inr (_, l1, h2, run, ins)) ↦
              let next = added-IsReady ready ins in
              let (status, l', h', rest, merged) =
                copy_loop-IsMerged zs fuel (omega arith) a chain.1 src.1 next in
              (
                status,
                l',
                h',
                rw
                    (
                      copy_loop,
                      first,
                      copied,
                      run,
                      ◌>>=◌,
                      load-next (addrs zs) src.0 (next.same a src.0.keeps) chain.1,
                      ◌>>=◌,
                    )
                    rest,
                cons-IsMerged a v ins.same_cmp ins.avail merged,
              )
        ]

module _ {D : Type 0} {h : Heap D} {source target : SkipList D} {xs ys : Cells D} {place : ℕ → ℕ}
    {cpyfunc : CopyFunc D} where
  -- `MySKLcopy` from a well-formed list into another that is apart from it, with places for the
  -- copies, ends without an access out of bounds. It copies the nodes in the order of the source: all
  -- of them with success, or those in front of a node for whose copy there is no memory with
  -- MYSKL_MEM_EXHAUSTED, which happens only if memory is refused. The target is well formed
  -- and holds its old cells, each copy put in front of the first that is not less; the source is
  -- well formed and holds the same cells.
  pub copy-IsMerged :
      IsSkipList h source xs
      → Copies cpyfunc place
      → IsReady h (source.header ∷ addrs xs) place xs h target ys
      → (status : Status) × (target' : SkipList D) × (h' : Heap D) × (copy
            (some source)
            (some target)
            h
            (some cpyfunc)
          ≡ some (status, some target', h'))
        × IsMerged h (source.header ∷ addrs xs) place false xs h target ys status target' h'
        × IsSkipList h' source xs
  unfolding copy
  copy-IsMerged inv copies ready =
      let (status, target', h', run, merged) =
        copy_loop-IsMerged copies source xs (rounds source) (omega (arith, inv.count)) source.header
          (Chain-addrs inv) (cells-IsSource inv) ready in
      (
        status,
        target',
        h',
        rw (
          verify_list-true inv,
          verify_list-true ready.inv,
          load-some h source.header 0 (omega (arith, inv.room, maxlevel_pos inv)),
          ◌>>=◌,
          Chain-head_or h.next source.header 0 source.header (addrs xs) (Chain-addrs inv),
          run,
          ◌>>=◌,
        ),
        merged,
        IsSkipList-frame h' merged.same inv,
      )
