-- ===== src/Double/Cursor.antt =====
-- src/skl_iter.c with double links: a step of an iterator forwards or backwards is that of a cursor
-- between the nodes of a level.
use myskl.Prelude.{
  ℕ, ◌+◌, ◌≤◌, ◌<◌, ◌≡◌, refl, ap, ◌∙◌, true, false, some, List, [], ◌∷◌, arith, ◌>>=◌, All, ◌==◌,
  ==_self, subst, add_sub_one, none,
}
use myskl.Heap.Chain.{Chain, head_or, Chain-head_or}
use myskl.Heap.Writes.{load-some}
use myskl.SkipList.{null}
use myskl.Iter.{iter_magic}
use myskl.Double.{
  DoubleHeap, DoubleIter, Side, nexts, prevs, side_entry, is_sane, get_next_double, get_prev,
  get_next_node_double, get_prev_node, get_next_in, get_prev_in,
}
use myskl.Double.Links.{Back, Ring}

-- The nodes behind the cursor, the last first, in front of those ahead of it
abbrev pub rev_onto : List ℕ → List ℕ → List ℕ
rev_onto [] ahead = ahead
rev_onto (b ∷ behind) ahead = rev_onto behind (b ∷ ahead)

-- What a step of the cursor gives, and the nodes behind it and ahead of it then.
abbrev pub go_forth : List ℕ → List ℕ → ℕ × List ℕ × List ℕ
go_forth behind [] = (null, behind, [])
go_forth behind (a ∷ ahead) = (a, a ∷ behind, ahead)

abbrev pub go_back : List ℕ → List ℕ → ℕ × List ℕ × List ℕ
go_back [] ahead = (null, [], ahead)
go_back (b ∷ behind) ahead = (b, behind, b ∷ ahead)

module _ {D : Type 0} (d : DoubleHeap D) (header i : ℕ) where
  -- A node of level `i`
  pub record IsOn (a : ℕ) : Type 0 where
    pub inside : (a == header) ≡ false
    pub wide : i < d.heap.cap a
    pub high : i + 1 ≤ d.heap.sz a

  -- What the iterator comes to next: node `a` forwards and node `b` backwards
  pub record IsAt (iter : DoubleIter) (a b : ℕ) : Type 0 where
    pub magic : iter.magic ≡ iter_magic
    pub list : iter.list ≡ header
    pub term : iter.term ≡ null
    pub level : i + 1 ≤ iter.prevlev
    pub next : Side
    pub has_next : iter.next ≡ some next
    pub reads_next : side_entry d next i ≡ some a
    pub prev : Side
    pub has_prev : iter.prev ≡ some prev
    pub reads_prev : side_entry d prev i ≡ some b

  is_sane-IsAt : {iter : DoubleIter} {a b : ℕ} → IsAt iter a b → is_sane iter (i + 1) ≡ true
  unfolding is_sane
  is_sane-IsAt k = ground (arith, k.magic, k.level)

  pub side_entry-next :
      (a b : ℕ) → i < d.heap.cap a → d.heap.next a i ≡ b → side_entry d (nexts a) i ≡ some b
  unfolding side_entry
  side_entry-next a b wide e = load-some d.heap a i wide ∙ ap some e

  pub side_entry-prev :
      (a b : ℕ) → i < d.heap.cap a → d.prev a i ≡ b → side_entry d (prevs a) i ≡ some b
  unfolding side_entry
  side_entry-prev a b wide e = ground arith

  -- The pointers ahead of the cursor and those behind it
  Chain-ahead :
      (behind ahead : List ℕ)
      → Chain d.heap.next header i header (rev_onto behind ahead)
      → Chain d.heap.next header i (head_or header behind) ahead
  Chain-ahead [] ahead c = c
  Chain-ahead (b ∷ behind) ahead c = (Chain-ahead behind (b ∷ ahead) c).1

  Back-ahead :
      (behind ahead : List ℕ)
      → Back d.prev header i header (rev_onto behind ahead)
      → Back d.prev header i (head_or header behind) ahead
  Back-ahead [] ahead c = c
  Back-ahead (b ∷ behind) ahead c = (Back-ahead behind (b ∷ ahead) c).1

  All-ahead : (behind ahead : List ℕ) → All IsOn (rev_onto behind ahead) → All IsOn ahead
  All-ahead [] ahead all = all
  All-ahead (b ∷ behind) ahead all = (All-ahead behind (b ∷ ahead) all).1

  module _ {iter : DoubleIter} {a b : ℕ} (k : IsAt iter a b) where
    get_next_node_double-in :
        get_next_node_double d iter (i + 1) ≡ get_next_in d iter (i + 1) k.next
    unfolding get_next_node_double get_next_double
    get_next_node_double-in = rw (is_sane-IsAt k) (
        ap (λ o. elim o [ none ↦ some (null, iter) | some side ↦ get_next_in d iter (i + 1) side ])
          k.has_next)

    get_prev_node-in : get_prev_node d iter (i + 1) ≡ get_prev_in d iter (i + 1) k.prev
    unfolding get_prev_node get_prev
    get_prev_node-in =
        rw (is_sane-IsAt k) (ap (λ o. o >>= (λ side. get_prev_in d iter (i + 1) side)) k.has_prev)

    get_next_in-end : a ≡ header → get_next_in d iter (i + 1) k.next ≡ some (null, iter)
    unfolding get_next_in
    get_next_in-end e = rw (add_sub_one i, k.reads_next, ◌>>=◌, k.list, e, ==_self header) refl

    get_prev_in-end : b ≡ header → get_prev_in d iter (i + 1) k.prev ≡ some (null, iter)
    unfolding get_prev_in
    get_prev_in-end e = rw (add_sub_one i, k.reads_prev, ◌>>=◌, k.list, e, ==_self header) refl

    get_next_in-node :
        IsOn a
        → get_next_in d iter (i + 1) k.next
          ≡ some
              (a, record iter { prev = some k.next; prevlev = d.heap.sz a; next = some (nexts a) })
    unfolding get_next_in
    get_next_in-node on = rw (add_sub_one i, k.reads_next, ◌>>=◌, k.list, on.inside, k.term) refl

    get_prev_in-node :
        IsOn b
        → get_prev_in d iter (i + 1) k.prev
          ≡ some
              (b, record iter { next = some k.prev; prevlev = d.heap.sz b; prev = some (prevs b) })
    unfolding get_prev_in
    get_prev_in-node on = rw (add_sub_one i, k.reads_prev, ◌>>=◌, k.list, on.inside) refl

  -- A step forwards, whatever would come backwards
  pub get_next_node_double-IsAt :
      (behind ahead : List ℕ) {iter : DoubleIter} {b : ℕ}
      → Ring d header i (rev_onto behind ahead)
      → All IsOn (rev_onto behind ahead)
      → IsAt iter (head_or header ahead) b
      → (ahead ≡ [] → b ≡ head_or header behind)
      → let (node, behind', ahead') = go_forth behind ahead in
        (iter' : DoubleIter) × (get_next_node_double d iter (i + 1) ≡ some (node, iter'))
        × IsAt iter' (head_or header ahead') (head_or header behind')
  get_next_node_double-IsAt behind [] {iter} ring nodes k same = (
    iter,
    get_next_node_double-in k ∙ get_next_in-end k refl,
    subst (IsAt iter header) (same refl) k,
  )
  get_next_node_double-IsAt behind (a ∷ ahead) {iter} ring nodes k same =
      let on = (All-ahead behind (a ∷ ahead) nodes).0 in
      let linked = (Chain-ahead behind (a ∷ ahead) ring.forth).1 in
      (
        _,
        get_next_node_double-in k ∙ get_next_in-node k on,
        record {
          magic = k.magic;
          list = k.list;
          term = k.term;
          level = on.high;
          next = nexts a;
          has_next = refl;
          reads_next =
              side_entry-next a (head_or header ahead) on.wide
                (Chain-head_or d.heap.next header i a ahead linked);
          prev = k.next;
          has_prev = refl;
          reads_prev = k.reads_next;
        },
      )

  -- A step backwards, whatever would come forwards
  pub get_prev_node-IsAt :
      (behind ahead : List ℕ) {iter : DoubleIter} {a : ℕ}
      → Ring d header i (rev_onto behind ahead)
      → All IsOn (rev_onto behind ahead)
      → IsAt iter a (head_or header behind)
      → (behind ≡ [] → a ≡ head_or header ahead)
      → let (node, behind', ahead') = go_back behind ahead in
        (iter' : DoubleIter) × (get_prev_node d iter (i + 1) ≡ some (node, iter'))
        × IsAt iter' (head_or header ahead') (head_or header behind')
  get_prev_node-IsAt [] ahead {iter} ring nodes k same = (
    iter,
    get_prev_node-in k ∙ get_prev_in-end k refl,
    subst (λ n. IsAt iter n header) (same refl) k,
  )
  get_prev_node-IsAt (b ∷ behind) ahead {iter} ring nodes k same =
      let on = (All-ahead behind (b ∷ ahead) nodes).0 in
      let linked = (Back-ahead behind (b ∷ ahead) ring.back).0 in
      (
        _,
        get_prev_node-in k ∙ get_prev_in-node k on,
        record {
          magic = k.magic;
          list = k.list;
          term = k.term;
          level = on.high;
          next = k.prev;
          has_next = refl;
          reads_next = k.reads_prev;
          prev = prevs b;
          has_prev = refl;
          reads_prev = side_entry-prev b (head_or header behind) on.wide linked;
        },
      )
