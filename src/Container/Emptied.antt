-- ===== src/Container/Emptied.antt =====
-- Freeing the container of src/skl_lc.c with all its lists.
use myskl.Prelude.{
  ℕ, ◌+◌, ◌≡◌, ◌≢◌, refl, sym, ap, ◌∙◌, true, false, some, none, List, [], ◌∷◌, arith, All,
  All-mono, length, map, ◌>>=◌, ne→==, ◌==◌, length-map,
}
use myskl.Heap.{Heap, update}
use myskl.Heap.Chain.{has}
use myskl.Heap.Writes.{update_self, update_ne}
use myskl.SkipList.{SkipList, null}
use myskl.SkipList.Cells.{Cells, addrs}
use myskl.SkipList.Invariant.{IsSkipList}
use myskl.SkipList.Frame.{SameNode, SameNode-trans, IsSkipList-frame}
use myskl.Destroy.Freed.{destroy_list-Freed}
use myskl.Destroy.{destroy_list}
use myskl.Container.{
  Acl, Container, World, start_container, lc_none, destroy_at, destroy_acl_loop, destroy_acl,
  destroy_lists_container, free_lists_container,
}
use myskl.Container.Stored.{Entries, IsStored}
use myskl.Init.{free_blocks}

-- A list, what it stands for, and its address
pub record Owned (D : Type 0) : Type 0 where
  pub place : ℕ
  pub list : SkipList D
  pub cells : Cells D

module _ {D : Type 0} where
  abbrev pub nodes_of : Owned D → List ℕ
  nodes_of q = q.list.header ∷ addrs q.cells

  -- It is a well-formed list that can be destroyed.
  pub record IsOwned (w : World D) (q : Owned D) : Type 0 where
    pub real : q.place ≢ null
    pub found : w.lists q.place ≡ some q.list
    pub inv : IsSkipList w.heap q.list q.cells
    pub dst : q.list.dst ≡ true

  -- Two lists share no memory.
  pub record IsApart (q r : Owned D) : Type 0 where
    pub place : q.place ≢ r.place
    pub left : (a : ℕ) → has a (nodes_of q) ≡ true → has a (nodes_of r) ≡ false
    pub right : (a : ℕ) → has a (nodes_of r) ≡ true → has a (nodes_of q) ≡ false

  abbrev pub AllApart : List (Owned D) → Type 0
  AllApart [] = Unit
  AllApart (q ∷ qs) = All (IsApart q) qs × AllApart qs

  abbrev pub places : List (Owned D) → List ℕ
  places qs = map (λ q. q.place) qs

  -- The blocks of the lists: one for each node and four more for each list
  abbrev pub blocks : List (Owned D) → ℕ
  blocks [] = 0
  blocks (q ∷ qs) = length q.cells + 4 + blocks qs

  -- The list has been destroyed.
  pub record IsGone (w : World D) (q : Owned D) : Type 0 where
    pub lost : w.lists q.place ≡ none
    pub nodes : (a : ℕ) → has a (addrs q.cells) ≡ true → (w.heap.cap a ≡ 0) × (w.heap.val a ≡ none)
    pub header : w.heap.cap q.list.header ≡ 0

  -- Just the lists `qs` have been destroyed, and `more` blocks freed besides.
  pub record Emptied (w : World D) (qs : List (Owned D)) (more : ℕ) (w' : World D) : Type 0 where
    pub gone : All (IsGone w') qs
    pub nodes : (a : ℕ) → All (λ q. has a (nodes_of q) ≡ false) qs → SameNode w.heap w'.heap a
    pub lists : (p : ℕ) → All (λ q. p ≢ q.place) qs → w'.lists p ≡ w.lists p
    pub alloc_count : w'.heap.stat.alloc_count ≡ w.heap.stat.alloc_count
    pub freed_count : w'.heap.stat.freed_count ≡ w.heap.stat.freed_count + blocks qs + more

  destroy_at-some :
      (w : World D) (p : ℕ) (l : SkipList D) (h' : Heap D)
      → p ≢ null
      → w.lists p ≡ some l
      → destroy_list (some l) w.heap ≡ some (none, h')
      → destroy_at w p ≡ some (record { lists = update w.lists p none; heap = h' })
  unfolding destroy_at
  destroy_at-some w p l h' real found run = rw (ne→== p null real, found, ◌>>=◌, run, ◌>>=◌)

  -- The other lists are still there.
  owned_rest :
      (w : World D) {h1 : Heap D} (q : Owned D)
      → ((a : ℕ) → has a (nodes_of q) ≡ false → SameNode w.heap h1 a)
      → (rs : List (Owned D)) → All (IsApart q) rs
      → All (IsOwned w) rs
      → All (IsOwned (record { lists = update w.lists q.place none; heap = h1 })) rs
  owned_rest w q stay [] apart owned = tt
  owned_rest w {h1} q stay (r ∷ rs) apart owned = (
    record {
      real = owned.0.real;
      found =
          update_ne w.lists q.place none {x = r.place} (λ e. apart.0.place (sym e)) ∙ owned.0.found;
      inv = IsSkipList-frame h1 (λ a e. stay a (apart.0.right a e)) owned.0.inv;
      dst = owned.0.dst;
    },
    owned_rest w q stay rs apart.1 owned.1,
  )

  destroy_acl_loop-Emptied :
      (acl : Acl) (qs : List (Owned D)) (i : ℕ) (w : World D)
      → Entries acl i (places qs)
      → All (IsOwned w) qs
      → AllApart qs
      → (w' : World D) × (destroy_acl_loop acl i (length qs) w ≡ some w') × Emptied w qs 0 w'
  unfolding destroy_acl_loop
  destroy_acl_loop-Emptied acl [] i w entries owned apart = (
    w,
    refl,
    record {
      gone = tt;
      nodes = λ a e. record { next = λ j. refl; cap = refl; sz = refl; val = refl };
      lists = λ p e. refl;
      alloc_count = refl;
      freed_count = omega arith;
    },
  )
  destroy_acl_loop-Emptied acl (q ∷ qs) i w entries owned apart =
      let own = owned.0 in
      let (h1, run, nodes, header, stay, allocs, frees) = destroy_list-Freed own.inv own.dst in
      let w1 : World D = record { lists = update w.lists q.place none; heap = h1 } in
      let owned1 : All (IsOwned w1) qs = owned_rest w q stay qs apart.0 owned.1 in
      let (w', rest, emptied) =
        destroy_acl_loop-Emptied acl qs (i + 1) w1 entries.1 owned1 apart.1 in
      let out : (a : ℕ) → has a (nodes_of q) ≡ true → SameNode w1.heap w'.heap a =
        λ a e. emptied.nodes a (All-mono _ _ (λ r p. p.left a e) qs apart.0) in
      (
        w',
        rw (entries.0, ◌>>=◌, destroy_at-some w q.place q.list h1 own.real own.found run, ◌>>=◌)
            rest,
        record {
          gone = (
            record {
              lost =
                  emptied.lists q.place (All-mono _ _ (λ r p. p.place) qs apart.0)
                  ∙ update_self w.lists q.place none;
              nodes = λ a e.
                  let same = out a (ground arith) in
                  (same.cap ∙ (nodes a e).0, same.val ∙ (nodes a e).1);
              header = (out q.list.header (ground arith)).cap ∙ header;
            },
            emptied.gone,
          );
          nodes = λ a e. SameNode-trans (stay a e.0) (emptied.nodes a e.1);
          lists = λ p e. emptied.lists p e.1 ∙ update_ne w.lists q.place none e.0;
          alloc_count = emptied.alloc_count ∙ allocs;
          freed_count = omega (arith, emptied.freed_count, frees);
        },
      )

  destroy_lists_container-run :
      (c : Container) (acl : Acl) (w : World D) {w1 : World D} (n : ℕ)
      → c.acl ≡ some acl
      → c.lists_cnt ≡ n
      → destroy_acl_loop acl 0 n w ≡ some w1
      → destroy_lists_container c w
        ≡ some (start_container, record w1 { heap = free_blocks w1.heap 1 })
  unfolding destroy_lists_container destroy_acl
  destroy_lists_container-run c acl w n found count run =
      ap
        (λ o. elim o [
          | none ↦ some (start_container, w)
          | some acl' ↦ destroy_acl acl' c.lists_cnt w >>= (λ w'. some (start_container, w'))
        ])
        found
      ∙ ap (λ k. destroy_acl acl k w >>= (λ w'. some (start_container, w'))) count
      ∙ rw (run, ◌>>=◌)

  module _ {w : World D} {c : Container} (qs : List (Owned D)) where
    -- `MySKLfreeListsContainer`, of a container that holds just some well-formed lists that can be
    -- destroyed, share no memory and are all still there, ends without an access out of bounds: it
    -- destroys each of these lists with its nodes, frees the array and no other block, changes no
    -- other node or list, allocates nothing, and leaves the container as at the start.
    pub free_lists_container-Emptied :
        IsStored c (places qs)
        → All (IsOwned w) qs
        → AllApart qs
        → (w' : World D) × (free_lists_container c w ≡ some (start_container, w'))
          × Emptied w qs 1 w'
    unfolding free_lists_container free_blocks
    free_lists_container-Emptied k owned apart =
        let (w1, run, emptied) = destroy_acl_loop-Emptied k.acl qs 0 w k.entries owned apart in
        let full : (c.mode == lc_none) ≡ false = ground (arith, k.full) in
        (
          record w1 { heap = free_blocks w1.heap 1 },
          rw full (
              destroy_lists_container-run c k.acl w (length qs) k.has_acl
                (k.count ∙ length-map (λ q. q.place) qs) run),
          record {
            gone =
                All-mono _ _ (λ q g. record { lost = g.lost; nodes = g.nodes; header = g.header })
                  qs emptied.gone;
            nodes = λ a e.
                let same = emptied.nodes a e in
                record { next = same.next; cap = same.cap; sz = same.sz; val = same.val };
            lists = emptied.lists;
            alloc_count = emptied.alloc_count;
            freed_count = omega (arith, emptied.freed_count);
          },
        )
