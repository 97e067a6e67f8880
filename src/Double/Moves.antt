-- ===== src/Double/Moves.antt =====
-- src/skl_iter.c with double links: a client that goes forwards and backwards along a level.
use myskl.Prelude.{
  ℕ, ◌+◌, ◌≤◌, ◌<◌, ◌≡◌, refl, some, Option, List, [], ◌∷◌, arith, ◌>>=◌, All, subst, sym,
  append-nil, last_or, ◌∙◌, ap, false, ◌++◌,
}
use myskl.Heap.Chain.{has, head_or, Chain-head_or}
use myskl.SkipList.{SkipList, null}
use myskl.SkipList.Cells.{Cells, addrs, at, All-at}
use myskl.SkipList.Invariant.{IsNode, IsSkipList}
use myskl.Double.{
  DoubleHeap, DoubleIter, nexts, prevs, set_double_iterator, get_next_node_double, get_prev_node,
}
use myskl.Double.Links.{Back, Ring}
use myskl.Double.Cursor.{
  rev_onto, go_forth, go_back, IsOn, IsAt, get_next_node_double-IsAt, get_prev_node-IsAt,
  side_entry-next, side_entry-prev,
}

-- A call of the client: MySKLgetNextNode or MySKLgetPrevNode
pub data Turn : Type 0 where
  forth back : Turn

abbrev pub go : Turn → List ℕ → List ℕ → ℕ × List ℕ × List ℕ
go forth behind ahead = go_forth behind ahead
go back behind ahead = go_back behind ahead

-- What the cursor gives for a sequence of calls.
abbrev pub cursor : List Turn → List ℕ → List ℕ → List ℕ
cursor [] behind ahead = []
cursor (t ∷ ts) behind ahead =
    let (node, behind', ahead') = go t behind ahead in node ∷ cursor ts behind' ahead'

module _ {D : Type 0} (d : DoubleHeap D) (lev : ℕ) where
  abbrev pub take_turn : Turn → DoubleIter → Option (ℕ × DoubleIter)
  take_turn forth iter = get_next_node_double d iter lev
  take_turn back iter = get_prev_node d iter lev

  -- What the iterator gives for a sequence of calls.
  abbrev pub turns : List Turn → DoubleIter → Option (List ℕ)
  turns [] iter = some []
  turns (t ∷ ts) iter = do
    (node, iter') ← take_turn t iter
    rest ← turns ts iter'
    some (node ∷ rest)

module _ {D : Type 0} (d : DoubleHeap D) (header i : ℕ) where
  -- The end of the level that a turn goes to is where the iterator points; where the turn cannot go
  -- on, so is the other end.
  abbrev pub Meets : Turn → List ℕ → List ℕ → ℕ → ℕ → Type 0
  Meets forth behind ahead a b =
      (a ≡ head_or header ahead) × (ahead ≡ [] → b ≡ head_or header behind)
  Meets back behind ahead a b =
      (b ≡ head_or header behind) × (behind ≡ [] → a ≡ head_or header ahead)

  Meets-there :
      (t : Turn) (behind ahead : List ℕ)
      → Meets t behind ahead (head_or header ahead) (head_or header behind)
  Meets-there forth behind ahead = (refl, λ e. refl)
  Meets-there back behind ahead = (refl, λ e. refl)

  abbrev pub MeetsFirst : List Turn → List ℕ → List ℕ → ℕ → ℕ → Type 0
  MeetsFirst [] behind ahead a b = Unit
  MeetsFirst (t ∷ ts) behind ahead a b = Meets t behind ahead a b

  meets_first :
      (ts : List Turn) (behind ahead : List ℕ)
      → MeetsFirst ts behind ahead (head_or header ahead) (head_or header behind)
  meets_first [] behind ahead = tt
  meets_first (t ∷ ts) behind ahead = Meets-there t behind ahead

  rev_onto-go :
      (t : Turn) (behind ahead : List ℕ)
      → let (node, behind', ahead') = go t behind ahead in
        rev_onto behind' ahead' ≡ rev_onto behind ahead
  rev_onto-go forth behind [] = refl
  rev_onto-go forth behind (a ∷ ahead) = refl
  rev_onto-go back [] ahead = refl
  rev_onto-go back (b ∷ behind) ahead = refl

  -- The first turn needs only the end that it goes to.
  take_turn-IsAt :
      (t : Turn) (behind ahead : List ℕ) {iter : DoubleIter} {a b : ℕ}
      → Ring d header i (rev_onto behind ahead)
      → All (IsOn d header i) (rev_onto behind ahead)
      → IsAt d header i iter a b
      → Meets t behind ahead a b
      → let (node, behind', ahead') = go t behind ahead in
        (iter' : DoubleIter) × (take_turn d (i + 1) t iter ≡ some (node, iter'))
        × IsAt d header i iter' (head_or header ahead') (head_or header behind')
  take_turn-IsAt forth behind ahead {iter} {b} ring nodes k meets =
      get_next_node_double-IsAt d header i behind ahead ring nodes
        (subst (λ n. IsAt d header i iter n b) meets.0 k) meets.1
  take_turn-IsAt back behind ahead {iter} {a} ring nodes k meets =
      get_prev_node-IsAt d header i behind ahead ring nodes
        (subst (λ n. IsAt d header i iter a n) meets.0 k) meets.1

  turns-cursor :
      (ts : List Turn) (behind ahead : List ℕ) {iter : DoubleIter} {a b : ℕ}
      → Ring d header i (rev_onto behind ahead)
      → All (IsOn d header i) (rev_onto behind ahead)
      → IsAt d header i iter a b
      → MeetsFirst ts behind ahead a b
      → turns d (i + 1) ts iter ≡ some (cursor ts behind ahead)
  turns-cursor [] behind ahead ring nodes k meets = refl
  turns-cursor (t ∷ ts) behind ahead ring nodes k meets =
      let (iter', run, k') = take_turn-IsAt t behind ahead ring nodes k meets in
      let same = rev_onto-go t behind ahead in
      let (node, behind', ahead') = go t behind ahead in
      rw
        (
          run,
          ◌>>=◌,
          turns-cursor ts behind' ahead' (subst (Ring d header i) (sym same) ring)
              (subst (All (IsOn d header i)) (sym same) nodes) k' (meets_first ts behind' ahead'),
          ◌>>=◌,
        )
        refl

-- The cursor of an iterator that has been set to the start of a list: before the first node for a call
-- that goes forwards, behind the last node for one that goes backwards.
abbrev pub from_start : List Turn → List ℕ → List ℕ
from_start (back ∷ ts) ns = cursor (back ∷ ts) (rev_onto ns []) []
from_start ts ns = cursor ts [] ns

rev_onto-rev_onto : (ns acc ms : List ℕ) → rev_onto (rev_onto ns acc) ms ≡ rev_onto acc (ns ++ ms)
rev_onto-rev_onto [] acc ms = refl
rev_onto-rev_onto (a ∷ ns) acc ms = rev_onto-rev_onto ns (a ∷ acc) ms

head_or-rev_onto :
    (e : ℕ) (ns acc : List ℕ) → head_or e (rev_onto ns acc) ≡ last_or (head_or e acc) ns
head_or-rev_onto e [] acc = refl
head_or-rev_onto e (a ∷ ns) acc = head_or-rev_onto e ns (a ∷ acc)

rev_onto-nil : (ns : List ℕ) → rev_onto (rev_onto ns []) [] ≡ ns
rev_onto-nil ns = rev_onto-rev_onto ns [] [] ∙ append-nil ns

Back-last_or :
    (prev : ℕ → ℕ → ℕ) (stop i x : ℕ) (ns : List ℕ)
    → Back prev stop i x ns
    → prev stop i ≡ last_or x ns
Back-last_or prev stop i x [] b = b
Back-last_or prev stop i x (a ∷ ns) b = Back-last_or prev stop i a ns b.1

rev_onto-empty : (ns : List ℕ) → rev_onto ns [] ≡ [] → ns ≡ []
rev_onto-empty ns e = sym (rev_onto-nil ns) ∙ ap (λ ms. rev_onto ms []) e

module _ {D : Type 0} (d : DoubleHeap D) (l : SkipList D) where
  nodes-IsOn :
      (i : ℕ) (ys : Cells D)
      → All (λ c. IsNode d.heap l.curlevel c.0 c.1) ys
      → has l.header (addrs ys) ≡ false
      → All (λ c. i < d.heap.sz c.0 → IsOn d l.header i c.0) ys
  nodes-IsOn i [] nodes out = tt
  nodes-IsOn i ((a, v) ∷ ys) nodes out = (
    λ high. record {
      inside = ground arith;
      wide = omega (arith, nodes.0.full);
      high = omega arith;
    },
    nodes-IsOn i ys nodes.1 (ground arith),
  )

module _ {D : Type 0} (d : DoubleHeap D) {l : SkipList D} {xs : Cells D}
    (inv : IsSkipList d.heap l xs)
    (backs : (i : ℕ) → i < l.maxlevel → Back d.prev l.header i l.header (at d.heap.sz i xs)) where
  module _ (i : ℕ) (high : i < l.maxlevel) (wide : i + 1 ≤ d.heap.sz l.header) where
    level_nodes-Ring : Ring d l.header i (at d.heap.sz i xs)
    level_nodes-Ring = record { forth = inv.chains i high; back = backs i high }

    level_nodes-IsOn : All (IsOn d l.header i) (at d.heap.sz i xs)
    level_nodes-IsOn =
        All-at (IsOn d l.header i) d.heap.sz i xs (nodes-IsOn d l i xs inv.nodes inv.apart.0)

    set_double_iterator-IsAt :
        IsAt d l.header i
          (set_double_iterator l d null null)
          (head_or l.header (at d.heap.sz i xs))
          (last_or l.header (at d.heap.sz i xs))
    unfolding set_double_iterator
    set_double_iterator-IsAt = record {
      magic = refl;
      list = refl;
      term = refl;
      level = wide;
      next = nexts l.header;
      has_next = refl;
      reads_next =
          side_entry-next d l.header i l.header _ (omega (arith, inv.room))
            (Chain-head_or d.heap.next l.header i l.header (at d.heap.sz i xs) (inv.chains i high));
      prev = prevs l.header;
      has_prev = refl;
      reads_prev =
          side_entry-prev d l.header i l.header _ (omega (arith, inv.room))
            (Back-last_or d.prev l.header i l.header (at d.heap.sz i xs) (backs i high));
    }

    -- In a build with double links: from an iterator set to the start of a well-formed list whose
    -- pointers also lead back on every level, and whose header has the level, any sequence of calls of
    -- MySKLgetNextNode and MySKLgetPrevNode on one level gives what a cursor between the nodes of that
    -- level gives: forwards the node ahead of it, backwards the node behind it, NULL at the ends; and
    -- the cursor begins before the first node if the first call goes forwards, and behind the last
    -- node if it goes backwards.
    pub turns-set_double_iterator :
        (ts : List Turn)
        → turns d (i + 1) ts (set_double_iterator l d null null)
          ≡ some (from_start ts (at d.heap.sz i xs))
    turns-set_double_iterator [] = refl
    turns-set_double_iterator (forth ∷ ts) =
        turns-cursor d l.header i (forth ∷ ts) [] (at d.heap.sz i xs) level_nodes-Ring
          level_nodes-IsOn set_double_iterator-IsAt (refl, λ e. ap (last_or l.header) e)
    turns-set_double_iterator (back ∷ ts) =
        let same = sym (rev_onto-nil (at d.heap.sz i xs)) in
        turns-cursor d l.header i (back ∷ ts) (rev_onto (at d.heap.sz i xs) []) []
          (subst (Ring d l.header i) same level_nodes-Ring)
          (subst (All (IsOn d l.header i)) same level_nodes-IsOn) set_double_iterator-IsAt
          (
            sym (head_or-rev_onto l.header (at d.heap.sz i xs) []),
            λ e. ap (head_or l.header) (rev_onto-empty (at d.heap.sz i xs) e),
          )
