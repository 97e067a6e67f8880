-- ===== src/Insert/Nodes.antt =====
-- What `new_node` makes of the heap.
use myskl.Prelude.{
  ℕ, zero, suc, ◌+◌, ◌≤◌, ◌<◌, ◌≡◌, refl, ◌≢◌, true, false, some, arith, lt→ltb, ◌>>=◌, ◌∙◌,
}
use myskl.Heap.{Heap, Mstat, update, update_entry, alloc}
use myskl.Heap.Writes.{store-some, update_self}
use myskl.SkipList.{SkipList}
use myskl.Insert.{alloc_next, nil_next, new_node}
use native.Mathlib.Decide.{ℕ_discrete}

-- The counters after an allocation that succeeds, and after one that fails.
abbrev pub counted : Mstat → Mstat
counted st = record st { calls = st.calls + 1; alloc_count = st.alloc_count + 1 }

abbrev pub refused : Mstat → Mstat
refused st = record st { calls = st.calls + 1 }

module _ {D : Type 0} where
  -- The heap with `lev` levels for node `x`, the pointers being `next`.
  abbrev pub prepared : Heap D → ℕ → ℕ → (ℕ → ℕ → ℕ) → Heap D
  prepared h x lev next = record h {
    next = next;
    cap = update (update h.cap x 0) x lev;
    sz = update h.sz x lev;
    stat = counted h.stat;
  }

  -- The heap after a failed allocation for node `x`.
  abbrev pub starved : Heap D → ℕ → Heap D
  starved h x = record h { cap = update h.cap x 0; stat = refused h.stat }

  pub nil_next_lem :
      (l : SkipList D) (x n i : ℕ) (h : Heap D)
      → i + n ≤ h.cap x
      → (f : ℕ → ℕ → ℕ) × (nil_next l x n i h ≡ some (record h { next = f }))
        × ((a j : ℕ) → a ≢ x → f a j ≡ h.next a j)
        × ((j : ℕ) → i ≤ j → j < i + n → f x j ≡ l.header)
        × ((j : ℕ) → j < i → f x j ≡ h.next x j)
  unfolding nil_next update_entry
  nil_next_lem l x zero i h w =
      (h.next, refl, λ a j e. refl, λ j e f. absurd (omega arith), λ j e. refl)
  nil_next_lem l x (suc n) i h w =
      let h' : Heap D = record h { next = update_entry h.next x i l.header } in
      let (f, e, other, own, low) = nil_next_lem l x n (i + 1) h' (omega arith) in
      (
        f,
        rw (store-some h x i l.header (omega arith), ◌>>=◌) e,
        λ a j ne. ground (arith, other a j),
        λ j le lt. elim (ℕ_discrete i j) [
          | yes here ↦ rw (← here) (low i (omega arith) ∙ ground arith)
          | no later ↦ own j (omega arith) (omega arith)
        ],
        λ j lt. ground (arith, low j),
      )

  -- A node whose array can be allocated gets `lev` pointers, all to the header.
  pub new_node-prepared :
      (l : SkipList D) (h : Heap D) (x lev : ℕ)
      → 1 ≤ lev
      → h.avail h.stat.calls ≡ true
      → (f : ℕ → ℕ → ℕ) × (new_node l h x lev ≡ some (true, prepared h x lev f))
        × ((a j : ℕ) → a ≢ x → f a j ≡ h.next a j)
        × ((j : ℕ) → j < lev → f x j ≡ l.header)
  unfolding new_node alloc_next alloc
  new_node-prepared l h x lev pos ok =
      let h1 : Heap D = record h {
        cap = update (update h.cap x 0) x lev;
        sz = update h.sz x lev;
        stat = counted h.stat;
      } in
      let (f, e, other, own, low) =
        nil_next_lem l x lev 0 h1 (rw (update_self (update h.cap x 0) x lev) (omega arith)) in
      (f, rw (ok, lt→ltb 0 lev pos, e, ◌>>=◌), other, λ j lt. own j (omega arith) (omega arith))

  -- Otherwise `new_node` gives none, and the node is left without an array.
  pub new_node-starved :
      (l : SkipList D) (h : Heap D) (x lev : ℕ)
      → 1 ≤ lev
      → h.avail h.stat.calls ≡ false
      → new_node l h x lev ≡ some (false, starved h x)
  unfolding new_node alloc_next alloc
  new_node-starved l h x lev pos no_room = rw (no_room, lt→ltb 0 lev pos)
