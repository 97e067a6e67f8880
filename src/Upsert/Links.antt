-- ===== src/Upsert/Links.antt =====
-- The loop of `addNodeAndUpdateLinks` that links a node upwards, level by level.
use myskl.Prelude.{
  ℕ, zero, suc, ◌+◌, ◌≤◌, ◌<◌, ◌≡◌, ◌≢◌, refl, ◌∙◌, false, ◌&&◌, Option, some, arith, ltb, leb,
  if◌then◌else◌, ◌>>=◌, [], ◌∷◌,
}
use myskl.Heap.{Heap, update, update_entry}
use myskl.Heap.Chain.{has}
use myskl.SkipList.Cells.{Cells, addrs, at}
use myskl.Insert.Links.{Linked, link_lem}
use myskl.Upsert.{nil_update, link_loop}

-- The entries of the new levels are the header; the others stay.
pub nil_update_lem :
    (header n i : ℕ) (upd : ℕ → Option ℕ) (j : ℕ)
    → nil_update header n i upd j ≡ (if leb i j && ltb j (i + n) then some header else upd j)
unfolding nil_update update
nil_update_lem header zero i upd j = ground arith
nil_update_lem header (suc n) i upd j =
    nil_update_lem header n (i + 1) (update upd i (some header)) j ∙ ground arith

-- A new size of a node outside a list changes no level of the list.
pub at-update :
    {D : Type 0} (sz : ℕ → ℕ) (x lev j : ℕ) (xs : Cells D)
    → has x (addrs xs) ≡ false
    → at (update sz x lev) j xs ≡ at sz j xs
unfolding update
at-update sz x lev j [] out = refl
at-update sz x lev j ((a, v) ∷ xs) out = ground (arith, at-update sz x lev j xs)

module _ {D : Type 0} (h : Heap D) {x lev : ℕ} {p : ℕ → ℕ} {upd : ℕ → Option ℕ}
    (set : (j : ℕ) → j < lev → upd j ≡ some (p j)) (wide : (j : ℕ) → j < lev → j < h.cap (p j))
    (own : lev ≤ h.cap x) (apart : (j : ℕ) → x ≢ p j) where
  link_loop-step :
      (n i : ℕ)
      → i + n ≡ lev
      → (g : ℕ → ℕ → ℕ) → Linked h.next g x p lev i
      → (f : ℕ → ℕ → ℕ) × (link_loop x upd n i (record h { next = g })
          ≡ some (record h { next = f }))
        × Linked h.next f x p lev lev
  unfolding link_loop update_entry
  link_loop-step zero i e g done = (g, refl, λ j a. ground (arith, done j a))
  link_loop-step (suc n) i e g done =
      let h' : Heap D = record h { next = g } in
      let g' = update_entry (update_entry g x i (g (p i) i)) (p i) i x in
      let (f, run, done') =
        link_loop-step n (i + 1) (omega arith) g'
          (λ j a. ground (arith, done j a, done i (p i), apart i, apart j)) in
      (
        f,
        rw
            (
              set i (omega arith),
              ◌>>=◌,
              link_lem x i (p i) h' (wide i (omega arith)) (omega arith),
              ◌>>=◌,
            )
            run,
        done',
      )

  -- It links the node behind its predecessor on each of its levels, and writes nothing else.
  pub link_loop-Linked :
      (f : ℕ → ℕ → ℕ) × (link_loop x upd lev 0 h ≡ some (record h { next = f }))
      × Linked h.next f x p lev lev
  link_loop-Linked = link_loop-step lev 0 (omega arith) h.next (λ j a. ground arith)
