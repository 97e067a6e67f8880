-- ===== src/Draw/Widths.antt =====
-- src/skl_draw.c: that the drawings of a node on its levels stand in one column, which is what
-- `adjustLink` is for.
use myskl.Prelude.{
  ℕ, zero, suc, ◌+◌, ◌<◌, ◌≡◌, refl, ap, ◌∙◌, sym, Bool, true, false, Option, some, none, List, [],
  ◌∷◌, ◌++◌, arith, ◌==◌, ==_self, if◌then◌else◌, ltb, Bool-cases, inl, inr, subst, All,
  All-append_right,
}
use myskl.Heap.{Heap}
use myskl.Heap.Chain.{has, Distinct, Distinct-middle}
use myskl.SkipList.{SkipList, null, rounds}
use myskl.SkipList.Cells.{Cells, addrs, at, at-append, addrs-append}
use myskl.SkipList.Invariant.{IsSkipList, IsNode}
use myskl.Iter.{set_iterator}
use myskl.Draw.{Piece, link, dash, arrow, datum, dashes, row_loop}
use myskl.Draw.Rows.{is_nil, row}
use myskl.Draw.Picture.{row_loop-header}

is_nil-append : (ns : List ℕ) (b : ℕ) (ms : List ℕ) → is_nil (ns ++ b ∷ ms) ≡ false
is_nil-append [] b ms = refl
is_nil-append (a ∷ ns) b ms = refl

module _ (size : ℕ → ℕ) where
  -- The characters of a piece of a row, if the handler `printData` prints as many as the handler
  -- `sizeofData` tells.
  abbrev pub width : Piece → ℕ
  width link = 4
  width arrow = 4
  width dash = 1
  width (datum a) = size a
  width _ = 0

  abbrev pub is_datum : ℕ → Piece → Bool
  is_datum a (datum b) = a == b
  is_datum a _ = false

  abbrev pub shift : ℕ → Option ℕ → Option ℕ
  shift n none = none
  shift n (some k) = some (n + k)

  -- The characters in front of the data of node `a`
  abbrev pub column : ℕ → List Piece → Option ℕ
  column a [] = none
  column a (p ∷ ps) = if is_datum a p then some 0 else shift (width p) (column a ps)

  -- The place of a node behind the nodes `us`: for each of them an arrow and its data.
  abbrev pub place : List ℕ → ℕ
  place [] = 4
  place (a ∷ us) = 4 + (size a + place us)

  column-dashes :
      (a n k : ℕ) (ps : List Piece)
      → column a ps ≡ some k
      → column a (dashes n ++ ps) ≡ some (n + k)
  unfolding dashes
  column-dashes a zero k ps e = e ∙ ap some (omega arith)
  column-dashes a (suc n) k ps e = rw (column-dashes a n k ps e) (ap some (omega arith))

  module _ {D : Type 0} (sz : ℕ → ℕ) (j : ℕ) where
    column-row :
        (us : Cells D) (b : ℕ) (v : D) (vs : Cells D)
        → has b (addrs us) ≡ false
        → ltb j (sz b) ≡ true
        → column b (row sz size j (us ++ (b, v) ∷ vs)) ≡ some (place (addrs us))
    column-row [] b v vs out on = rw (on, ==_self b) refl
    column-row ((a, w) ∷ us) b v vs out on =
        let differs : (b == a) ≡ false = ground arith in
        let later = column-row us b v vs (ground arith) on in
        elim (Bool-cases (ltb j (sz a))) [
          | inl e ↦ rw (e, differs, later) refl
          | inr e ↦
              rw
                (
                  e,
                  at-append sz j us ((b, v) ∷ vs),
                  on,
                  is_nil-append (at sz j us) b (at sz j vs),
                  column-dashes b (size a) (place (addrs us)) (row sz size j (us ++ (b, v) ∷ vs))
                      later,
                )
                refl
        ]

-- In the drawing of a well-formed list each node stands in the same column on every level that it
-- has: behind an arrow, and for each node of the list in front of it an arrow's length and the
-- length of that node's data, provided the handler for the data prints as many characters as the
-- handler for the sizes tells.
pub row_loop-column :
    {D : Type 0} {h : Heap D} {l : SkipList D} {xs : Cells D} (size : ℕ → ℕ)
    → IsSkipList h l xs
    → (us : Cells D) (b : ℕ) (v : D) (vs : Cells D) → xs ≡ us ++ (b, v) ∷ vs
    → (j : ℕ) → j < h.sz b
    → let start = set_iterator l h null null in
      (ps : List Piece) × (row_loop h size l j (rounds l) l.header start start ≡ some ps)
      × (column size b ps ≡ some (place size (addrs us)))
row_loop-column {h} {l} size inv us b v vs split j on = (
  _,
  row_loop-header size inv j (
      omega (
        arith,
        inv.fits,
        (All-append_right _ us ((b, v) ∷ vs)
            (subst (λ zs. All (λ c. IsNode h l.curlevel c.0 c.1) zs) split inv.nodes)).0.low,
      )),
  subst (λ zs. column size b (row h.sz size j zs) ≡ some (place size (addrs us))) (sym split)
      (column-row size h.sz j us b v vs
        (ground (
          arith,
          Distinct-middle b (addrs us) (addrs vs) (
              subst Distinct (addrs-append us ((b, v) ∷ vs))
                (subst (λ zs. Distinct (addrs zs)) split inv.apart.1)),
        ))
        (ground arith)),
)
