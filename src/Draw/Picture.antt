-- ===== src/Draw/Picture.antt =====
-- src/skl_draw.c: the whole drawing that `MySKLdrawList` prints.
use myskl.Prelude.{
  ℕ, zero, suc, ◌+◌, ◌≤◌, ◌<◌, ◌≡◌, refl, ap, true, false, some, List, [], ◌∷◌, ◌++◌, arith, ◌>>=◌,
  All, ◌==◌, ==_self, if◌then◌else◌, Bool-cases, inl, inr,
}
use myskl.Heap.{Heap}
use myskl.Heap.Chain.{has, Chain-head_or}
use myskl.Heap.Writes.{load-some}
use myskl.SkipList.{SkipList, null, rounds}
use myskl.SkipList.Cells.{Cells, addrs, at, has-at}
use myskl.SkipList.Invariant.{IsNode, IsSkipList}
use myskl.SkipList.Frame.{IsSkipList-frame}
use myskl.SkipList.Guards.{verify_list-true}
use myskl.Iter.{set_iterator}
use myskl.Destroy.Freed.{Chain-addrs}
use myskl.Draw.{Piece, level_label, no_nodes, newline, malloc, row_loop, draw_loop, draw_list, draw}
use myskl.Draw.Rows.{is_nil, row, IsBefore, AllDrawn, row_loop-first, row_loop-higher}

module _ {D : Type 0} (sz size : ℕ → ℕ) (xs : Cells D) where
  -- A level that no node reaches, or the row of the level
  abbrev pub level_row : ℕ → List Piece
  level_row j = if is_nil (at sz j xs) then no_nodes ∷ [] else row sz size j xs ++ newline ∷ []

  -- Levels `n` down to 1
  abbrev pub picture : ℕ → List Piece
  picture zero = []
  picture (suc j) = level_label (suc j) ∷ level_row j ++ picture j

module _ {D : Type 0} {h : Heap D} {l : SkipList D} {xs : Cells D} (size : ℕ → ℕ)
    (inv : IsSkipList h l xs) where
  nodes-IsDrawn :
      (ys : Cells D)
      → All (λ c. IsNode h l.curlevel c.0 c.1) ys
      → has l.header (addrs ys) ≡ false
      → AllDrawn h l size ys
  nodes-IsDrawn [] nodes out = tt
  nodes-IsDrawn ((a, v) ∷ ys) nodes out = (
    record { inside = ground arith; wide = nodes.0.full; high = nodes.0.pos },
    nodes-IsDrawn ys nodes.1 (ground arith),
  )

  header-IsBefore : (j : ℕ) → j < l.maxlevel → IsBefore h l size j l.header xs
  header-IsBefore j high = record {
    fits = omega (arith, inv.count);
    wide = omega (arith, inv.room);
    above = inv.chains j high;
    chain = Chain-addrs inv;
    distinct = inv.apart.1;
    drawn = nodes-IsDrawn xs inv.nodes inv.apart.0;
  }

  pub row_loop-header :
      (j : ℕ)
      → j < l.maxlevel
      → let start = set_iterator l h null null in
        row_loop h size l j (rounds l) l.header start start ≡ some (row h.sz size j xs)
  unfolding set_iterator
  row_loop-header zero high =
      let b = header-IsBefore 0 high in
      row_loop-first h l size xs (rounds l) l.header _ _ (omega (arith, inv.count)) b.wide b.chain
        b.drawn
  row_loop-header (suc j) high =
      row_loop-higher h l size j xs (rounds l) l.header (h.sz l.header) (omega (arith, inv.count))
        (header-IsBefore (suc j) high)

  first : (j a : ℕ) (ns : List ℕ) → at h.sz j xs ≡ a ∷ ns → (a == l.header) ≡ false
  first j a ns e = ground (arith, has-at l.header h.sz j xs inv.apart.0, ap (has l.header) e)

  draw_loop-level :
      (j : ℕ)
      → j < l.maxlevel
      → draw_loop h size l j ≡ some (picture h.sz size xs j)
      → (ns : List ℕ) → at h.sz j xs ≡ ns
      → draw_loop h size l (suc j) ≡ some (picture h.sz size xs (suc j))
  unfolding draw_loop
  draw_loop-level j high lower [] e =
      rw
        (
          draw_loop,
          load-some h l.header j (omega (arith, inv.room)),
          ◌>>=◌,
          Chain-head_or h.next l.header j l.header (at h.sz j xs) (inv.chains j high),
          e,
          ==_self l.header,
          ◌>>=◌,
          lower,
          ◌>>=◌,
        )
        refl
  draw_loop-level j high lower (a ∷ ns) e =
      rw
        (
          draw_loop,
          load-some h l.header j (omega (arith, inv.room)),
          ◌>>=◌,
          Chain-head_or h.next l.header j l.header (at h.sz j xs) (inv.chains j high),
          e,
          first j a ns e,
          row_loop-header j high,
          ◌>>=◌,
          lower,
          ◌>>=◌,
        )
        refl

  draw_loop-picture :
      (n : ℕ) → n ≤ l.maxlevel → draw_loop h size l n ≡ some (picture h.sz size xs n)
  unfolding draw_loop
  draw_loop-picture zero high = refl
  draw_loop-picture (suc j) high =
      draw_loop-level j (omega arith) (draw_loop-picture j (omega arith)) (at h.sz j xs) refl

-- What one call and what two calls of `malloc` leave.
abbrev pub one_malloc : {D : Type 0} → Heap D → Heap D
one_malloc h = record h { stat = record h.stat { calls = h.stat.calls + 1 } }

abbrev pub two_mallocs : {D : Type 0} → Heap D → Heap D
two_mallocs h = record h { stat = record h.stat { calls = h.stat.calls + 1 + 1 } }

module _ {D : Type 0} {h : Heap D} {l : SkipList D} {xs : Cells D} (inv : IsSkipList h l xs) where
  draw_loop-mallocs :
      (size : ℕ → ℕ)
      → draw_loop (two_mallocs h) size l l.maxlevel ≡ some (picture h.sz size xs l.maxlevel)
  draw_loop-mallocs size =
      let same =
        IsSkipList-frame (two_mallocs h)
          (λ a e. record { next = λ j. refl; cap = refl; sz = refl; val = refl }) inv in
      draw_loop-picture size same l.maxlevel (omega arith)

  -- Of a well-formed list, if memory for its two iterators is given, MySKLdrawList prints the whole
  -- picture and frees both: from the highest level down to level 1 the number of the level and, if no
  -- node reaches it, a mark of that, else for each node of the level in order an arrow and the node's
  -- data, and for each node in between a line of the length of an arrow and of that node's data. If
  -- memory for the first is not given, it prints nothing; if memory for the second is not given, it
  -- prints nothing and the first is never freed.
  pub draw_lem :
      (size : ℕ → ℕ)
      → draw (some l) h true size ≡ (
          if h.avail h.stat.calls
          then if h.avail (h.stat.calls + 1)
            then some (picture h.sz size xs l.maxlevel, 0, two_mallocs h)
            else some ([], 1, two_mallocs h)
          else some ([], 0, one_malloc h))
  unfolding draw draw_list malloc
  draw_lem size = elim (Bool-cases (h.avail h.stat.calls)) [
    | inl one ↦ elim (Bool-cases (h.avail (h.stat.calls + 1))) [
      | inl two ↦ rw (verify_list-true inv, one, two, draw_loop-mallocs size, ◌>>=◌) refl
      | inr two ↦ rw (verify_list-true inv, one, two) refl
    ]
    | inr one ↦ rw (verify_list-true inv, one) refl
  ]
