-- ===== src/Join/Crossing.antt =====
-- The loop of `intersect` of src/skl_join.c over its two sources.
use myskl.Prelude.{
  ℕ, zero, suc, ◌+◌, ◌-◌, ◌<◌, ◌≡◌, refl, sym, subst, Bool, true, false, some, List, [], ◌∷◌, arith,
  inl, inr, length, ◌>>=◌, Bool-cases, ◌==◌, if◌then◌else◌,
}
use myskl.Heap.{Heap}
use myskl.Heap.Chain.{head_or}
use myskl.SkipList.{SkipList, status_ok, mem_exhausted, is_eq, is_lt, nd_mode}
use myskl.SkipList.Cells.{Cells, addrs, Sorted, IsOrder}
use myskl.SkipList.Common.{
  common, skip_cells, common-eq, common-lt, common-gt, skip_cells-Sorted, length-skip_cells,
  not_above,
}
use myskl.Join.{CopyFunc}
use myskl.Join.Intersect.{intersect_loop}
use myskl.Join.Adds.{insert_plain-Adds}
use myskl.Join.Ready.{Copies, IsReady, made-IsSkipList, made-IsFresh, added-IsReady}
use myskl.Join.Merged.{IsMerged, IsSource, nil-IsMerged, cons-IsMerged, starved-IsMerged, load-next}
use myskl.Join.Copying.{copied_node}
use myskl.Join.Passing.{Follows, eq-some, less-some, pass_equal-Follows, none-IsMerged}

pred_lem : (n : ℕ) → suc n - 1 ≡ n
pred_lem n = omega arith

module _ {D : Type 0} (h0 : Heap D) (keep : List ℕ) {place : ℕ → ℕ} {cpyfunc : CopyFunc D}
    (copies : Copies cpyfunc place) (source1 : SkipList D) (ord : IsOrder source1.cmp)
    (header2 : ℕ) where
  -- The loop ends, and copies the cells `cs` as far as there is memory.
  abbrev pub Runs : ℕ → ℕ → ℕ → ℕ → ℕ → Heap D → SkipList D → Cells D → Cells D → Type 0
  Runs fuel x y tovisit1 tovisit2 h l ys cs =
      (ended : Bool) × (l' : SkipList D) × (h' : Heap D) × (intersect_loop source1 cpyfunc nd_mode
          fuel l h x y tovisit1 tovisit2
        ≡ some (ended, l', h'))
      × IsMerged h0 keep place false cs h l ys (if ended then status_ok else mem_exhausted) l' h'

  -- The round at two cells that compare equal, before the rounds after it
  copy-Runs :
      (fuel a : ℕ) (v : D) (b : ℕ) (u : D) (zs ws : Cells D)
      → is_eq (source1.cmp v u) ≡ true
      → IsSource h0 keep source1.header (a, v)
      → Follows h0 keep source1.header a zs
      → IsSource h0 keep header2 (b, u)
      → Follows h0 keep header2 b ws
      → {h : Heap D} {l : SkipList D} {ys cs : Cells D} → IsReady h0 keep place ((a, v) ∷ cs) h l ys
      → (let zs' = skip_cells source1.cmp v zs in
          let ws' = skip_cells source1.cmp u ws in
          (a' b' : ℕ)
          → Follows h0 keep source1.header a' zs'
          → Follows h0 keep header2 b' ws'
          → (h2 : Heap D) (l1 : SkipList D) (ys1 : Cells D) → IsReady h0 keep place cs h2 l1 ys1
          → Runs fuel
              (head_or source1.header (addrs zs'))
              (head_or header2 (addrs ws'))
              (length zs')
              (length ws')
              h2
              l1
              ys1
              cs)
      → Runs (suc fuel) a b (suc (length zs)) (suc (length ws)) h l ys ((a, v) ∷ cs)
  unfolding intersect_loop
  copy-Runs fuel a v b u zs ws equal x g1 y g2 {h} {l} {ys} {cs} ready go =
      let more1 : (suc (length zs) == 0) ≡ false = ground arith in
      let more2 : (suc (length ws) == 0) ≡ false = ground arith in
      let test = eq-some source1 ready.same x y in
      let copied = copied_node copies source1 a v ready x in
      elim (insert_plain-Adds (made-IsSkipList ready) (made-IsFresh ready)
        (omega (arith, ready.fits)) 0 nd_mode refl) [
          | inl known ↦ absurd (ground arith)
          | inr (inl (_, no_room, run, kept)) ↦ (
            false,
            _,
            _,
            rw (intersect_loop, more1, more2, test, ◌>>=◌, equal, copied, run, ◌>>=◌),
            starved-IsMerged ready no_room kept,
          )
          | inr (inr (_, l1, h2, run, ins)) ↦
              let next = added-IsReady ready ins in
              let (a', b', pass, k1, k2) =
                pass_equal-Follows source1 header2 next.same zs ws a v b u x g1 y g2 in
              let (ended, l', h', rest, merged) = go a' b' k1 k2 h2 l1 _ next in
              (
                ended,
                l',
                h',
                rw
                    (
                      intersect_loop, more1, more2, test, ◌>>=◌, equal, copied, run, ◌>>=◌, pass,
                      ◌>>=◌,
                    )
                    rest,
                cons-IsMerged a v ins.same_cmp ins.avail merged,
              )
        ]

  pub intersect_loop-IsMerged :
      (fuel : ℕ) (zs ws : Cells D)
      → length zs + length ws < fuel
      → (p q : ℕ) → Follows h0 keep source1.header p zs
      → Follows h0 keep header2 q ws
      → Sorted source1.cmp zs
      → Sorted source1.cmp ws
      → {h : Heap D} {l : SkipList D} {ys : Cells D}
      → IsReady h0 keep place (common source1.cmp zs ws) h l ys
      → Runs fuel
          (head_or source1.header (addrs zs))
          (head_or header2 (addrs ws))
          (length zs)
          (length ws)
          h
          l
          ys
          (common source1.cmp zs ws)
  unfolding intersect_loop
  intersect_loop-IsMerged zero zs ws short p q f1 f2 s1 s2 ready = absurd (omega arith)
  intersect_loop-IsMerged (suc fuel) [] ws short p q f1 f2 s1 s2 {h} {l} ready =
      (true, l, h, refl, nil-IsMerged ready)
  intersect_loop-IsMerged (suc fuel) (c ∷ zs) [] short p q f1 f2 s1 s2 {h} {l} {ys} ready =
      let more : (suc (length zs) == 0) ≡ false = ground arith in
      (true, l, h, rw (intersect_loop, more), none-IsMerged source1.cmp (c ∷ zs) ready)
  intersect_loop-IsMerged (suc fuel) ((a, v) ∷ zs) ((b, u) ∷ ws) short p q f1 f2 s1 s2 {h} {l} {ys}
        ready =
      let more1 : (suc (length zs) == 0) ≡ false = ground arith in
      let more2 : (suc (length ws) == 0) ≡ false = ground arith in
      let x = f1.cells.0 in
      let y = f2.cells.0 in
      let g1 : Follows h0 keep source1.header a zs = record {
        chain = f1.chain.1;
        cells = f1.cells.1;
      } in
      let g2 : Follows h0 keep header2 b ws = record { chain = f2.chain.1; cells = f2.cells.1 } in
      let test = eq-some source1 ready.same x y in
      let below = less-some source1 ready.same x y in
      elim (Bool-cases (is_eq (source1.cmp v u))) [
        | inl equal ↦
            let e = common-eq source1.cmp ord a b v u zs ws equal s1 in
            subst (Runs (suc fuel) a b (suc (length zs)) (suc (length ws)) h l ys) (sym e) (
              copy-Runs fuel a v b u zs ws equal x g1 y g2
                (subst (λ cs. IsReady h0 keep place cs h l ys) e ready)
                (λ a' b' k1 k2 h2 l1 ys1 next.
                  intersect_loop-IsMerged fuel (skip_cells source1.cmp v zs)
                    (skip_cells source1.cmp u ws)
                    (omega (
                      arith,
                      length-skip_cells source1.cmp v zs,
                      length-skip_cells source1.cmp u ws,
                    ))
                    a' b' k1 k2 (skip_cells-Sorted source1.cmp ord v zs s1.1)
                    (skip_cells-Sorted source1.cmp ord u ws s2.1) next))
        | inr other ↦ elim (Bool-cases (is_lt (source1.cmp v u))) [
          | inl low ↦
              let e = common-lt source1.cmp ord a b v u zs ws (ground arith) s2 in
              let seen = load-next (addrs zs) x (ready.same a x.keeps) f1.chain.1 in
              let (ended, l', h', rest, merged) =
                intersect_loop-IsMerged fuel zs ((b, u) ∷ ws) (omega arith) a q g1 f2 s1.1 s2
                  (subst (λ cs. IsReady h0 keep place cs h l ys) e ready) in
              subst (Runs (suc fuel) a b (suc (length zs)) (suc (length ws)) h l ys) (sym e) (
                ended,
                l',
                h',
                rw
                    (
                      intersect_loop,
                      more1,
                      more2,
                      test,
                      ◌>>=◌,
                      other,
                      below,
                      ◌>>=◌,
                      low,
                      seen,
                      ◌>>=◌,
                      pred_lem (length zs),
                    )
                    rest,
                merged,
              )
          | inr high ↦
              let e =
                common-gt source1.cmp ord b v u ((a, v) ∷ zs) ws (ground arith)
                  (not_above source1.cmp ord v, s1.0) in
              let seen = load-next (addrs ws) y (ready.same b y.keeps) f2.chain.1 in
              let (ended, l', h', rest, merged) =
                intersect_loop-IsMerged fuel ((a, v) ∷ zs) ws (omega arith) p b f1 g2 s1 s2.1
                  (subst (λ cs. IsReady h0 keep place cs h l ys) e ready) in
              subst (Runs (suc fuel) a b (suc (length zs)) (suc (length ws)) h l ys) (sym e) (
                ended,
                l',
                h',
                rw
                    (
                      intersect_loop,
                      more1,
                      more2,
                      test,
                      ◌>>=◌,
                      other,
                      below,
                      ◌>>=◌,
                      high,
                      seen,
                      ◌>>=◌,
                      pred_lem (length ws),
                    )
                    rest,
                merged,
              )
        ]
      ]
