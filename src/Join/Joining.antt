-- ===== src/Join/Joining.antt =====
-- `MySKLjoinAD` and `MySKLjoinND` of src/skl_join.c.
use myskl.Prelude.{
  ℕ, zero, suc, ◌≤◌, ◌≡◌, refl, ap, ◌∙◌, Bool, true, false, Option, some, List, [], ◌∷◌, arith, ◌⊎◌,
  inl, inr, All, length, ◌>>=◌, ne→==, ==_self, ◌==◌, if◌then◌else◌, none, Bool-cases,
}
use myskl.Heap.{Heap, load}
use myskl.Heap.Chain.{Chain, head_or}
use myskl.SkipList.{Status, SkipList, status_ok, mem_exhausted, rounds}
use myskl.SkipList.Cells.{Cells, addrs}
use myskl.SkipList.Invariant.{IsSkipList}
use myskl.SkipList.Guards.{verify_list-true}
use myskl.SkipList.Frame.{IsSkipList-frame}
use myskl.Destroy.Freed.{Chain-addrs}
use myskl.Join.{CopyFunc, destroy_copy, join_loop, join, join_with}
use myskl.Join.Adds.{mode_of, insert_i-Adds}
use myskl.Join.Ready.{
  Copies, IsReady, add_cell, dropped, made, made-IsSkipList, made-IsFresh, added-IsReady,
  dropped-IsReady,
}
use myskl.Join.Merged.{
  IsMerged, IsSource, nil-IsMerged, cons-IsMerged, starved-IsMerged, load-next, cells-IsSource,
  load-header,
}
use myskl.Join.Copying.{copied_node}

destroy_copy-some :
    {D : Type 0} (l : SkipList D) (h : Heap D) (n : ℕ)
    → l.dst ≡ true
    → destroy_copy l h n ≡ some (dropped n h)
unfolding destroy_copy
destroy_copy-some l h n e = ap (λ b. if b then some (dropped n h) else none) e

module _ {D : Type 0} (source : SkipList D) (nd : Bool) (cpyfunc : CopyFunc D) where
  -- What `join_loop` does once the copy of node `a` is dealt with.
  abbrev onward : ℕ → SkipList D → Heap D → ℕ → Option (Bool × SkipList D × Heap D)
  onward fuel l h a = load h a 0 >>= λ x. elim (x == source.header) [
    | true ↦ some (true, l, h)
    | false ↦ join_loop source (mode_of nd) cpyfunc fuel l h x
  ]

  -- The round at a cell leaves the rest of the cells to be joined.
  record Round (h0 : Heap D) (keep : List ℕ) (place : ℕ → ℕ) (h : Heap D) (l : SkipList D)
      (ys : Cells D) (a : ℕ) (v : D) (zs : Cells D) (fuel : ℕ) (l1 : SkipList D) (h1 : Heap D)
      : Type 0 where
    run : join_loop source (mode_of nd) cpyfunc (suc fuel) l h a ≡ onward fuel l1 h1 a
    ready : IsReady h0 keep place zs h1 l1 (add_cell nd l.cmp v (place a) ys)
    same_cmp : l1.cmp ≡ l.cmp
    same_avail : h1.avail ≡ h.avail
    same_dst : l1.dst ≡ l.dst

module _ {D : Type 0} {h0 : Heap D} {keep : List ℕ} {place : ℕ → ℕ} {cpyfunc : CopyFunc D}
    (copies : Copies cpyfunc place) (source : SkipList D) (nd : Bool) where
  -- Otherwise it stops for want of memory.
  join_loop-Round :
      (fuel a : ℕ) (v : D) (zs : Cells D) {h : Heap D} {l : SkipList D} {ys : Cells D}
      → IsReady h0 keep place ((a, v) ∷ zs) h l ys
      → IsSource h0 keep source.header (a, v)
      → (nd ≡ true → l.dst ≡ true)
      → ((l' : SkipList D) × (h' : Heap D) × (join_loop source (mode_of nd) cpyfunc (suc fuel) l h a
            ≡ some (false, l', h'))
          × IsMerged h0 keep place nd ((a, v) ∷ zs) h l ys mem_exhausted l' h')
        ⊎ ((l1 : SkipList D) × (h1 : Heap D) × Round source nd cpyfunc h0 keep place h l ys a v zs
              fuel l1 h1)
  unfolding join_loop
  join_loop-Round fuel a v zs {h} {l} ready src dst =
      let h1 = made ready in
      let copied = copied_node copies source a v ready src in
      elim (insert_i-Adds (made-IsSkipList ready) (made-IsFresh ready) (omega (arith, ready.fits))
        nd (λ old new. old)) [
          | inl (known, run) ↦ inr (
            l,
            dropped (place a) h1,
            record {
              run = rw (
                copied,
                run,
                ◌>>=◌,
                copied,
                destroy_copy-some l h1 (place a) (dst (ground arith)),
                ◌>>=◌,
              );
              ready = rw known (dropped-IsReady ready);
              same_cmp = refl;
              same_avail = refl;
              same_dst = refl;
            },
          )
          | inr (inl (_, no_room, run, kept)) ↦
              inl (_, _, rw (copied, run, ◌>>=◌), starved-IsMerged ready no_room kept)
          | inr (inr (new, l1, h2, run, ins)) ↦ inr (
            l1,
            h2,
            record {
              run = rw (copied, run, ◌>>=◌);
              ready = rw new (added-IsReady ready ins);
              same_cmp = ins.same_cmp;
              same_avail = ins.avail;
              same_dst = ins.same_dst;
            },
          )
        ]

  onward-IsMerged :
      (zs : Cells D) (fuel : ℕ)
      → length zs ≤ fuel
      → (p : ℕ) → Chain h0.next source.header 0 p (addrs zs)
      → All (IsSource h0 keep source.header) zs
      → {h : Heap D} {l : SkipList D} {ys : Cells D} → IsReady h0 keep place zs h l ys
      → (nd ≡ true → l.dst ≡ true)
      → load h p 0 ≡ some (head_or source.header (addrs zs))
      → (ended : Bool) × (l' : SkipList D) × (h' : Heap D) × (onward source nd cpyfunc fuel l h p
          ≡ some (ended, l', h'))
        × IsMerged h0 keep place nd zs h l ys (if ended then status_ok else mem_exhausted) l' h'
  onward-IsMerged [] fuel short p chain src {h} {l} ready dst seen =
      (true, l, h, rw (seen, ◌>>=◌, ==_self source.header), nil-IsMerged ready)
  onward-IsMerged ((a, v) ∷ zs) zero short p chain src ready dst seen = absurd (omega arith)
  onward-IsMerged ((a, v) ∷ zs) (suc fuel) short p chain src {h} {l} ready dst seen =
      let first = ne→== a source.header src.0.inner in
      elim (join_loop-Round fuel a v zs ready src.0 dst) [
        | inl (l', h', run, merged) ↦ (false, l', h', rw (seen, ◌>>=◌, first) run, merged)
        | inr (l1, h1, round) ↦
            let (ended, l', h', rest, merged) =
              onward-IsMerged zs fuel (omega arith) a chain.1 src.1 round.ready
                (λ e. round.same_dst ∙ dst e)
                (load-next (addrs zs) src.0 (round.ready.same a src.0.keeps) chain.1) in
            (
              ended,
              l',
              h',
              rw (seen, ◌>>=◌, first) (round.run ∙ rest),
              cons-IsMerged a v round.same_cmp round.same_avail merged,
            )
      ]

join-onward :
    {D : Type 0} (h : Heap D) (source target : SkipList D) (cpyfunc : CopyFunc D) (nd : Bool)
    (x : ℕ)
    → load h source.header 0 ≡ some x
    → {ended : Bool} {target' : SkipList D} {h' : Heap D}
    → onward source nd cpyfunc (rounds source) target h source.header ≡ some (ended, target', h')
    → join (mode_of nd) target source h cpyfunc
      ≡ some (if ended then status_ok else mem_exhausted, target', h')
unfolding join
join-onward h source target cpyfunc nd x seen {ended} {target'} {h'} run =
    let rest = rw (seen, ◌>>=◌) at run in
    elim (Bool-cases (x == source.header)) [
      | inl empty ↦ rw (seen, ◌>>=◌, empty) (cc (rw empty at rest))
      | inr filled ↦ rw (seen, ◌>>=◌, filled, rw filled at rest, ◌>>=◌)
    ]

module _ {D : Type 0} {h : Heap D} {source target : SkipList D} {xs ys : Cells D} {place : ℕ → ℕ}
    {cpyfunc : CopyFunc D} where
  -- `MySKLjoinAD` (`nd` false) and `MySKLjoinND` (`nd` true, for a target with a destroyer) from a
  -- well-formed list into another that is apart from it, with places for the copies, end without an
  -- access out of bounds. They copy the nodes in the order of the source: all of them with success,
  -- or those in front of a node for whose copy there is no memory with MYSKL_MEM_EXHAUSTED, which
  -- happens only if memory is refused. The target is well formed and holds its old cells,
  -- each copy put in front of the first that is not less, but with `nd` only if none compared equal;
  -- the source is well formed and holds the same cells.
  pub join_with-IsMerged :
      (nd : Bool)
      → IsSkipList h source xs
      → Copies cpyfunc place
      → IsReady h (source.header ∷ addrs xs) place xs h target ys
      → (nd ≡ true → target.dst ≡ true)
      → (status : Status) × (target' : SkipList D) × (h' : Heap D) × (join_with
            (mode_of nd)
            (some target)
            (some source)
            h
            (some cpyfunc)
          ≡ some (status, some target', h'))
        × IsMerged h (source.header ∷ addrs xs) place nd xs h target ys status target' h'
        × IsSkipList h' source xs
  unfolding join_with
  join_with-IsMerged nd inv copies ready dst =
      let seen = load-header inv in
      let (ended, target', h', run, merged) =
        onward-IsMerged copies source nd xs (rounds source) (omega (arith, inv.count)) source.header
          (Chain-addrs inv) (cells-IsSource inv) ready dst seen in
      (
        _,
        target',
        h',
        rw (
          verify_list-true inv,
          verify_list-true ready.inv,
          join-onward h source target cpyfunc nd _ seen run,
          ◌>>=◌,
        ),
        merged,
        IsSkipList-frame h' merged.same inv,
      )
