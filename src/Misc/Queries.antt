-- ===== src/Misc/Queries.antt =====
-- The queries of src/skl_misc.c that read the ends of the list.
use myskl.Prelude.{
  ℕ, suc, ◌+◌, ◌-◌, ◌≤◌, ◌≡◌, refl, ap, ◌∙◌, Bool, true, false, Option, some, [], ◌∷◌, List, arith,
  ◌>>=◌, if◌then◌else◌, length, last_or, ◌==◌, ne→==, ==_self, le→leb,
}
use myskl.Heap.{Heap, load}
use myskl.Heap.Chain.{has, head_or, Chain-head_or, has-last_or}
use myskl.Heap.Writes.{load-some}
use myskl.SkipList.{SkipList, null}
use myskl.SkipList.Cells.{Cells, addrs, at, has-at}
use myskl.SkipList.Invariant.{IsSkipList}
use myskl.SkipList.Guards.{verify_list-true, maxlevel_pos}
use myskl.Destroy.Freed.{Chain-addrs}
use myskl.Misc.{is_empty, get_head, get_tail, get_node_num}

-- No node.
abbrev pub none_in : List ℕ → Bool
none_in [] = true
none_in (_ ∷ _) = false

length_none : {D : Type 0} (xs : Cells D) → (length xs == 0) ≡ none_in (addrs xs)
length_none [] = refl
length_none ((a, v) ∷ xs) = ne→== (suc (length xs)) 0 (omega arith)

module _ {D : Type 0} {h : Heap D} {l : SkipList D} {xs : Cells D} (inv : IsSkipList h l xs) where
  header_head :
      (ns : List ℕ) → has l.header ns ≡ false → (head_or l.header ns == l.header) ≡ none_in ns
  header_head [] out = ==_self l.header
  header_head (a ∷ ns) out = ground arith

  or_null :
      (ns : List ℕ)
      → has l.header ns ≡ false
      → (if head_or l.header ns == l.header then null else head_or l.header ns) ≡ head_or null ns
  or_null [] out = rw (==_self l.header)
  or_null (a ∷ ns) out = ground arith

  last_or-null :
      (ns : List ℕ)
      → has l.header ns ≡ false
      → (if last_or l.header ns == l.header then null else last_or l.header ns) ≡ last_or null ns
  last_or-null [] out = rw (==_self l.header)
  last_or-null (a ∷ ns) out = ground (arith, has-last_or a ns)

  -- `MySKLgetHead` of a well-formed list is its first node, `MySKLgetTail` its last, NULL without a
  -- node, and `MySKLgetNodeNum` is the number of the nodes.
  ends_lem :
      (get_head (some l) h ≡ some (head_or null (addrs xs)))
      × (get_tail (some l) ≡ last_or null (addrs xs))
      × (get_node_num (some l) ≡ length xs)
  unfolding get_head get_tail get_node_num
  ends_lem = (
    rw
        (
          verify_list-true inv,
          load-some h l.header 0 (omega (arith, inv.room, maxlevel_pos inv)),
          ◌>>=◌,
          Chain-head_or h.next l.header 0 l.header (addrs xs) (Chain-addrs inv),
        )
        (ap some (or_null (addrs xs) inv.apart.0)),
    rw (verify_list-true inv, inv.last) (last_or-null (addrs xs) inv.apart.0),
    rw (verify_list-true inv) inv.count,
  )

  -- `MySKLisEmpty` of a well-formed list and level 0 tells whether the list has no node. With the
  -- number `k + 1` of a level it tells whether no node reaches that level.
  is_empty_lem :
      (is_empty (some l) h 0 ≡ some (none_in (addrs xs)))
      × ((k : ℕ) → k + 1 ≤ l.maxlevel → is_empty (some l) h (k + 1) ≡ some (none_in (at h.sz k xs)))
  unfolding is_empty
  is_empty_lem = (
    rw (verify_list-true inv) (ground (arith, inv.count, length_none xs)),
    λ k le.
        let sub : k + 1 - 1 ≡ k = omega arith in
        let header : ◌≡◌ {A = Option ℕ} (load h l.header k)
            (some (head_or l.header (at h.sz k xs))) =
          load-some h l.header k (omega (arith, inv.room))
          ∙ ap some (
              Chain-head_or h.next l.header k l.header (at h.sz k xs)
                (inv.chains k (omega arith))) in
        rw
          (
            verify_list-true inv,
            le→leb (k + 1) l.maxlevel le,
            ne→== (k + 1) 0 (omega arith),
            sub,
            header,
            ◌>>=◌,
          )
          (ap some (header_head (at h.sz k xs) (has-at l.header h.sz k xs inv.apart.0))),
  )
