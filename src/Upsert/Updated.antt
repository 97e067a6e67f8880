-- ===== src/Upsert/Updated.antt =====
-- The list after `MySKLinsertUPD` has changed the data of a node.
use myskl.Prelude.{
  ℕ, ◌≡◌, ◌≢◌, refl, sym, ap, ◌∙◌, subst, some, [], ◌∷◌, arith, length, All, ◌==◌, if◌then◌else◌,
  last_or,
}
use myskl.Heap.{Heap, update}
use myskl.Heap.Chain.{Distinct, Chain}
use myskl.SkipList.{SkipList, status_ok, null}
use myskl.SkipList.Cells.{Cells, Sorted, addrs, at, height}
use myskl.SkipList.Invariant.{IsNode, IsSkipList}
use myskl.SkipList.Find.{find_cell}
use myskl.Upsert.{insert_upd}
use myskl.Upsert.Public.{insert_upd-updated}

module _ {D : Type 0} (y : ℕ) (w : D) where
  -- The cells with data `w` at node `y`.
  abbrev pub set_cell : Cells D → Cells D
  set_cell [] = []
  set_cell ((a, v) ∷ xs) = (a, if a == y then w else v) ∷ set_cell xs

  addrs-set_cell : (xs : Cells D) → addrs (set_cell xs) ≡ addrs xs
  addrs-set_cell [] = refl
  addrs-set_cell ((a, v) ∷ xs) = ap (λ ns. a ∷ ns) (addrs-set_cell xs)

  length-set_cell : (xs : Cells D) → length (set_cell xs) ≡ length xs
  length-set_cell [] = refl
  length-set_cell (c ∷ xs) = omega (arith, length-set_cell xs)

  at-set_cell : (sz : ℕ → ℕ) (j : ℕ) (xs : Cells D) → at sz j (set_cell xs) ≡ at sz j xs
  at-set_cell sz j [] = refl
  at-set_cell sz j ((a, v) ∷ xs) = ground (arith, at-set_cell sz j xs)

  height-set_cell : (sz : ℕ → ℕ) (xs : Cells D) → height sz (set_cell xs) ≡ height sz xs
  height-set_cell sz [] = refl
  height-set_cell sz ((a, v) ∷ xs) = ground (arith, height-set_cell sz xs)

  nodes-set_cell :
      (h : Heap D) (top : ℕ) (xs : Cells D)
      → All (λ c. IsNode h top c.0 c.1) xs
      → All (λ c. IsNode (record h { val = update h.val y (some w) }) top c.0 c.1) (set_cell xs)
  unfolding update
  nodes-set_cell h top [] nodes = tt
  nodes-set_cell h top ((a, v) ∷ xs) nodes = (
    record {
      holds = ground (arith, nodes.0.holds);
      full = nodes.0.full;
      pos = nodes.0.pos;
      low = nodes.0.low;
    },
    nodes-set_cell h top xs nodes.1,
  )

  set_cell-IsSkipList :
      {h : Heap D} {l : SkipList D} (xs : Cells D)
      → IsSkipList h l xs
      → Sorted l.cmp (set_cell xs)
      → IsSkipList (record h { val = update h.val y (some w) }) l (set_cell xs)
  set_cell-IsSkipList {h} {l} xs inv sorted = record {
    order = inv.order;
    magic = inv.magic;
    has_header = inv.has_header;
    small = inv.small;
    top = inv.top ∙ sym (height-set_cell h.sz xs);
    fits = inv.fits;
    room = inv.room;
    apart = subst (λ ns. Distinct (l.header ∷ ns)) (sym (addrs-set_cell xs)) inv.apart;
    nodes = nodes-set_cell h l.curlevel xs inv.nodes;
    sorted = sorted;
    chains = λ i lt.
        subst (Chain h.next l.header i l.header) (sym (at-set_cell h.sz i xs)) (inv.chains i lt);
    count = inv.count ∙ sym (length-set_cell xs);
    last = inv.last ∙ ap (last_or l.header) (sym (addrs-set_cell xs));
  }

-- On a well-formed list, if the data of the first node that compares equal to the given node
-- keeps the order of the cells when it is updated, `MySKLinsertUPD` reports success and leaves
-- the list well formed, with the same cells but for the updated data at that node.
insert_upd-IsSkipList :
    {D : Type 0} {h : Heap D} {l : SkipList D} {xs : Cells D} {x : ℕ} {d : D}
    → IsSkipList h l xs
    → (updfunc : D → D → D) → h.val x ≡ some d
    → x ≢ null
    → (y : ℕ) (v : D) → find_cell l.cmp d xs ≡ some (y, v)
    → Sorted l.cmp (set_cell y (updfunc v d) xs)
    → (h' : Heap D) × (insert_upd (some l) h x (some updfunc) ≡ some (status_ok, some l, h'))
      × IsSkipList h' l (set_cell y (updfunc v d) xs)
insert_upd-IsSkipList {xs} inv updfunc target ne y v found sorted = (
  _,
  insert_upd-updated inv updfunc target ne y v found,
  set_cell-IsSkipList y (updfunc v _) xs inv sorted,
)
