-- ===== src/Insert/Links.antt =====
-- The links of a new node, level by level: what the two loops that set them make of the pointers.
use myskl.Prelude.{
  ℕ, zero, suc, ◌≤◌, ◌<◌, ◌≡◌, refl, ◌≢◌, false, ◌&&◌, some, arith, ltb, ◌==◌, if◌then◌else◌, ◌>>=◌,
  Bool-cases, inl, inr, ap, ◌∙◌, last_or,
}
use myskl.Heap.{Heap, update_entry}
use myskl.Heap.Chain.{has}
use myskl.Heap.Writes.{load-some, store-some}
use myskl.SkipList.{SkipList}
use myskl.SkipList.Cells.{Cells, addrs, at, before}
use myskl.SkipList.Place.{Walkable, pred_at, walk-pred_at, Walkable-next, cap-pred_at, pred_at-ne}
use myskl.Insert.{link, plain_loop}

-- `next'` is `next` with `x` linked behind `p j` on each level `j` below `top` and `lev`.
abbrev pub Linked : (next next' : ℕ → ℕ → ℕ) → ℕ → (ℕ → ℕ) → ℕ → ℕ → Type 0
Linked next next' x p lev top =
    (j a : ℕ)
    → next' a j ≡ (
        if ltb j top && ltb j lev
        then (if a == x then next (p j) j else if a == p j then x else next a j)
        else next a j)

module _ {D : Type 0} where
  pub link_lem :
      (x i p : ℕ) (h : Heap D)
      → i < h.cap p
      → i < h.cap x
      → link x i p h
        ≡ some (record h { next = update_entry (update_entry h.next x i (h.next p i)) p i x })
  unfolding link
  link_lem x i p h wp wx =
      rw (load-some h p i wp, ◌>>=◌, store-some h x i (h.next p i) wx, ◌>>=◌)
        (store-some _ p i x wp)

  -- The descent of `_insertPlain` ends, and links the new node behind its predecessor on each of its
  -- levels below `i`.
  pub plain_loop-Linked :
      (l : SkipList D) (xs : Cells D) (x lev : ℕ) (d : D)
      → x ≢ l.header
      → has x (addrs xs) ≡ false
      → (i : ℕ) (h : Heap D) → Walkable h l xs x d i
      → lev ≤ h.cap x
      → (y : ℕ) → y ≡ last_or l.header (at h.sz i (before l.cmp d xs))
      → (f : ℕ → ℕ → ℕ) × (plain_loop l x lev i y h ≡ some (record h { next = f }))
        × Linked h.next f x (λ j. last_or l.header (at h.sz j (before l.cmp d xs))) lev i
  unfolding plain_loop update_entry
  plain_loop-Linked l xs x lev d ne out zero h w wx y e = (h.next, refl, λ j a. ground arith)
  plain_loop-Linked l xs x lev d ne out (suc i) h w wx y e =
      let p = pred_at w i in
      let walked = walk-pred_at w i (omega arith) y (e ∙ ap (pred_at w) (omega arith)) in
      elim (Bool-cases (ltb i lev)) [
        | inl linked ↦
            let g = update_entry (update_entry h.next x i (h.next p i)) p i x in
            let (f, run, eq) =
              plain_loop-Linked l xs x lev d ne out i (record h { next = g })
                (Walkable-next w g i (omega arith) (λ a j lt. ground arith)) wx p refl in
            (
              f,
              rw
                  (
                    walked,
                    ◌>>=◌,
                    linked,
                    link_lem x i p h (cap-pred_at w i (omega arith)) (ground arith),
                    ◌>>=◌,
                  )
                  run,
              λ j a. ground (arith, eq j a, pred_at-ne w x ne out i),
            )
        | inr above ↦
            let (f, run, eq) =
              plain_loop-Linked l xs x lev d ne out i h
                (Walkable-next w h.next i (omega arith) (λ a j lt. refl)) wx p refl in
            (f, rw (walked, ◌>>=◌, above, ◌>>=◌) run, λ j a. ground (arith, eq j a))
      ]
