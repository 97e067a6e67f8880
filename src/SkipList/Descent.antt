-- ===== src/SkipList/Descent.antt =====
-- The array `update` after the descent, and the node that the operations look at next.
use myskl.Prelude.{
  ℕ, zero, suc, ◌≤◌, ◌<◌, ◌≡◌, refl, ap, ◌∙◌, Option, some, arith, ◌>>=◌, sym, subst, All, All-mono,
  All-append_right, ==_self, ne→==, ◌∷◌, ◌++◌, [], ◌≢◌, none,
}
use myskl.Heap.{Heap, update, load}
use myskl.Heap.Writes.{update_self, update_ne, load-some}
use native.Mathlib.Decide.{ℕ_discrete}
use myskl.SkipList.{SkipList, descend, matches, eq}
use myskl.SkipList.Cells.{Cells, at, before, after, at_zero, before-append-after, addrs, All-ne}
use myskl.SkipList.Place.{
  Walkable, pred_at, walk-pred_at, cap-pred_at, Chain-split, IsSkipList-Walkable, header-last_or,
}
use myskl.SkipList.Invariant.{IsNode, IsSkipList}
use myskl.SkipList.Guards.{maxlevel_pos}
use myskl.SkipList.Find.{contains, head_eq, head_eq-after}
use myskl.Heap.Chain.{Chain, Chain-drop, head_or, Chain-head_or}

module _ {D : Type 0} {h : Heap D} {l : SkipList D} {xs : Cells D} {n : ℕ} {d : D} {k : ℕ}
    (w : Walkable h l xs n d k) where
  -- The descent ends at the predecessor on level 0, and has set the entries of all its levels.
  pub descend-pred_at :
      (i : ℕ)
      → i ≤ k
      → (x : ℕ) (upd : ℕ → Option ℕ) → x ≡ pred_at w i
      → (upd' : ℕ → Option ℕ) × (descend l h n i x upd ≡ some (pred_at w 0, upd'))
        × ((j : ℕ) → j < i → upd' j ≡ some (pred_at w j))
        × ((j : ℕ) → i ≤ j → upd' j ≡ upd j)
  unfolding descend
  descend-pred_at zero le x upd e =
      (upd, ap (λ z. some (z, upd)) e, λ j lt. absurd (omega arith), λ j le. refl)
  descend-pred_at (suc i) le x upd e =
      let p = pred_at w i in
      let walked = walk-pred_at w i (omega arith) x (e ∙ ap (pred_at w) (omega arith)) in
      let (upd', run, set, kept) = descend-pred_at i (omega arith) p (update upd i (some p)) refl in
      (
        upd',
        rw (walked, ◌>>=◌) run,
        λ j lt. elim (ℕ_discrete j i) [
          | yes here ↦ rw here (kept i (omega arith) ∙ update_self upd i (some p))
          | no other ↦ set j (omega arith)
        ],
        λ j le. kept j (omega arith) ∙ update_ne upd i (some p) (omega arith),
      )

module _ {D : Type 0} {h : Heap D} {l : SkipList D} {xs : Cells D} {n : ℕ} {d : D}
    (inv : IsSkipList h l xs) (target : h.val n ≡ some d) where
  abbrev pub walkable : Walkable h l xs n d l.maxlevel
  walkable = IsSkipList-Walkable inv target

  abbrev pub rest : Cells D
  rest = after l.cmp d xs

  split_nodes : All (λ c. IsNode h l.curlevel c.0 c.1) (before l.cmp d xs ++ rest)
  split_nodes = subst (All _) (sym (before-append-after l.cmp d xs)) inv.nodes

  pub rest_nodes : All (λ c. IsNode h l.curlevel c.0 c.1) rest
  rest_nodes = All-append_right _ (before l.cmp d xs) rest split_nodes

  -- What is left of level 0 behind the place where the descent ends.
  pub Chain-rest : Chain h.next l.header 0 (pred_at walkable 0) (addrs rest)
  Chain-rest =
      subst (Chain h.next l.header 0 (pred_at walkable 0))
        (at_zero h.sz rest (All-mono _ _ (λ c p. p.pos) rest rest_nodes))
        (Chain-drop h.next l.header 0 l.header (at h.sz 0 (before l.cmp d xs)) (at h.sz 0 rest)
          (Chain-split walkable 0 (maxlevel_pos inv)))

  -- The node behind that place is the first that is not less.
  pub load-pred_at : load h (pred_at walkable 0) 0 ≡ some (head_or l.header (addrs rest))
  load-pred_at =
      load-some h (pred_at walkable 0) 0 (cap-pred_at walkable 0 (maxlevel_pos inv))
      ∙ ap some (Chain-head_or h.next l.header 0 (pred_at walkable 0) (addrs rest) Chain-rest)

  pub rest_out : All (λ c. c.0 ≢ l.header) rest
  rest_out =
      All-append_right _ (before l.cmp d xs) rest
        (subst (All _) (sym (before-append-after l.cmp d xs)) (All-ne l.header xs inv.apart.0))

  pub matches-head :
      (vs : Cells D)
      → All (λ c. IsNode h l.curlevel c.0 c.1) vs
      → All (λ c. c.0 ≢ l.header) vs
      → matches l h (head_or l.header (addrs vs)) n ≡ some (head_eq l.cmp d vs)
  unfolding matches eq
  matches-head [] nodes out = rw (==_self l.header)
  matches-head ((a, v) ∷ vs) nodes out =
      rw (ne→== a l.header out.0, nodes.0.holds, ◌>>=◌, target, ◌>>=◌)

  -- It compares equal exactly if some cell does.
  pub matches-contains : matches l h (head_or l.header (addrs rest)) n ≡ some (contains l.cmp d xs)
  matches-contains =
      matches-head rest rest_nodes rest_out
      ∙ ap some (head_eq-after l.cmp d inv.order xs inv.sorted)

  -- The descent from the header, from the list's level down.
  pub descend-update :
      (upd : ℕ → Option ℕ) × (descend l h n l.curlevel l.header (λ _. none)
        ≡ some (pred_at walkable 0, upd))
      × ((j : ℕ) → j < l.curlevel → upd j ≡ some (pred_at walkable j))
  descend-update =
      let (upd, run, set, _) =
        descend-pred_at walkable l.curlevel inv.fits l.header (λ _. none)
          (header-last_or inv d l.curlevel (omega arith)) in
      (upd, run, set)
