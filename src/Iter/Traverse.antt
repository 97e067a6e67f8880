-- ===== src/Iter/Traverse.antt =====
-- The client's loop that takes one node after the other from an iterator.
use myskl.Prelude.{
  ℕ, zero, suc, ◌+◌, ◌≤◌, ◌<◌, ◌≡◌, ◌≢◌, true, false, Option, some, none, List, [], ◌∷◌, arith,
  ◌>>=◌, length, All, ne→==, ==_self, ◌==◌, le→leb, not, ◌&&◌, ◌||◌, append-nil, if◌then◌else◌,
  ◌++◌, Bool, sym, subst, refl,
}
use myskl.Heap.{Heap, alloc}
use myskl.Heap.Chain.{has, Chain, head_or, Chain-head_or}
use myskl.Heap.Writes.{load-some}
use myskl.SkipList.{SkipList, null, verify_list}
use myskl.SkipList.Cells.{Cells, addrs}
use myskl.SkipList.Invariant.{IsNode, IsSkipList}
use myskl.SkipList.Guards.{maxlevel_pos}
use myskl.Destroy.Freed.{Chain-addrs, length-addrs}
use myskl.Iter.{
  Iter, iter_magic, get_next, get_next_node, some_sanity_checks, set_iterator, new_iterator,
  destroy_iterator,
}
use myskl.Init.{free_blocks}

abbrev pub at_node : ℕ → ℕ → ℕ → ℕ → Iter
at_node header term p level = record {
  magic = iter_magic;
  next = some p;
  list = header;
  term = term;
  prevlev = level;
}

-- The iterator stops in front of `node`.
abbrev pub stops : ℕ → ℕ → ℕ → Bool
stops header term node = (node == header) || (not (term == null) && node == term)

module _ {D : Type 0} where
  -- The nodes that `MySKLgetNextNode` returns on level 1 until it returns NULL.
  unfoldable pub traverse : Heap D → ℕ → Iter → Option (List ℕ)
  traverse h zero iter = none
  traverse h (suc fuel) iter = do
    (node, iter') ← get_next_node h iter 1
    elim (node == null) [
      | true ↦ some []
      | false ↦ traverse h fuel iter' >>= λ ns. some (node ∷ ns)
    ]

  -- A node that can be taken.
  pub record IsTaken (h : Heap D) (header term a : ℕ) : Type 0 where
    pub goes : stops header term a ≡ false
    pub real : a ≢ null
    pub wide : 0 < h.cap a
    pub high : 1 ≤ h.sz a

  module _ (h : Heap D) (header term : ℕ) where
    get_next_node_lem :
        (p level a : ℕ)
        → 1 ≤ level
        → 0 < h.cap p
        → h.next p 0 ≡ a
        → get_next_node h (at_node header term p level) 1 ≡ (
            if stops header term a
            then some (null, at_node header term p level)
            else some (a, at_node header term a (h.sz a)))
    unfolding get_next_node get_next some_sanity_checks
    get_next_node_lem p level a high wide e =
        rw (le→leb 1 level high, load-some h p 0 wide, ◌>>=◌, e)

    -- The nodes of a level-0 way in front of the first where the iterator stops.
    pub traverse-Chain :
        (ns ms : List ℕ) (fuel : ℕ)
        → length ns < fuel
        → (p level : ℕ) → 1 ≤ level
        → 0 < h.cap p
        → Chain h.next header 0 p (ns ++ ms)
        → stops header term (head_or header ms) ≡ true
        → All (IsTaken h header term) ns
        → traverse h fuel (at_node header term p level) ≡ some ns
    unfolding traverse
    traverse-Chain ns ms zero short p level high wide chain ends taken = absurd (omega arith)
    traverse-Chain [] ms (suc fuel) short p level high wide chain ends taken = rw (
      traverse,
      get_next_node_lem p level (head_or header ms) high wide
          (Chain-head_or h.next header 0 p ms chain),
      ends,
      ◌>>=◌,
    )
    traverse-Chain (a ∷ ns) ms (suc fuel) short p level high wide chain ends taken = rw (
      traverse,
      get_next_node_lem p level a high wide chain.0,
      taken.0.goes,
      ◌>>=◌,
      ne→== a null taken.0.real,
      traverse-Chain ns ms fuel (omega arith) a (h.sz a) taken.0.high taken.0.wide chain.1 ends
          taken.1,
      ◌>>=◌,
    )

module _ {D : Type 0} {h : Heap D} {l : SkipList D} {xs : Cells D} (inv : IsSkipList h l xs) where
  nodes-IsTaken :
      (ys : Cells D)
      → All (λ c. IsNode h l.curlevel c.0 c.1) ys
      → has l.header (addrs ys) ≡ false
      → has null (addrs ys) ≡ false
      → All (IsTaken h l.header null) (addrs ys)
  nodes-IsTaken [] nodes out real = tt
  nodes-IsTaken ((a, v) ∷ ys) nodes out real = (
    record {
      goes = ground arith;
      real = ground arith;
      wide = omega (arith, nodes.0.full, nodes.0.pos);
      high = nodes.0.pos;
    },
    nodes-IsTaken ys nodes.1 (ground arith) (ground arith),
  )

  -- From an iterator set to the start of a well-formed list none of whose nodes is NULL, whose
  -- header has at least one level, `MySKLgetNextNode` on level 1 returns the nodes of the list in
  -- their order, each of them once, and then NULL.
  pub traverse-set_iterator :
      has null (addrs xs) ≡ false
      → 1 ≤ h.sz l.header
      → traverse h (length xs + 1) (set_iterator l h null null) ≡ some (addrs xs)
  unfolding set_iterator
  traverse-set_iterator real high =
      traverse-Chain h l.header null (addrs xs) [] (length xs + 1) (omega (arith, length-addrs xs))
        l.header (h.sz l.header) high (omega (arith, inv.room, maxlevel_pos inv))
        (subst (Chain h.next l.header 0 l.header) (sym (append-nil (addrs xs))) (Chain-addrs inv))
        (rw (==_self l.header)) (nodes-IsTaken xs inv.nodes inv.apart.0 real)

-- An iterator that has been set is released by `MySKLdestroyIterator`: what is allocated for it is
-- freed.
destroy_iterator-new_iterator :
    {D : Type 0} (l : SkipList D) (h : Heap D) (n : ℕ)
    → verify_list l ≡ true
    → h.avail h.stat.calls ≡ true
    → let (iter, h1) = new_iterator (some l) h n in
      let (iter', h2) = destroy_iterator iter h1 in
      (iter' ≡ none)
      × (h2.stat.alloc_count ≡ h.stat.alloc_count + 1)
      × (h2.stat.freed_count ≡ h.stat.freed_count + 1)
unfolding new_iterator destroy_iterator alloc set_iterator free_blocks
destroy_iterator-new_iterator l h n gate room = rw (gate, room) (refl, refl, refl)
