-- ===== src/Draw/Listing.antt =====
-- src/skl_draw.c: what `MySKLdisplayListStruct` prints of the nodes.
use myskl.Prelude.{
  ℕ, zero, suc, ◌+◌, ◌≤◌, ◌<◌, ◌≡◌, refl, true, false, some, List, [], ◌∷◌, arith, ◌>>=◌, length,
  All, ◌==◌, ==_self, if◌then◌else◌, ltb, Bool-cases, inl, inr, subst,
}
use myskl.Heap.{Heap}
use myskl.Heap.Chain.{has, Chain, head_or, Chain-head_or}
use myskl.Heap.Writes.{load-some}
use myskl.SkipList.{SkipList, rounds}
use myskl.SkipList.Cells.{Cells, addrs, at}
use myskl.SkipList.Invariant.{IsNode, IsSkipList}
use myskl.SkipList.Guards.{maxlevel_pos, verify_list-true}
use myskl.Destroy.Freed.{Chain-addrs}
use myskl.Draw.{
  Info, list_info, node_info, node_links, info_loop, print_list_info, display_list_struct,
}

module _ {D : Type 0} (sz : ℕ → ℕ) (header : ℕ) where
  -- The pointers of a node in front of the cells `xs`: on each level to the next node of that level,
  -- or to the header; `n` of them from level `i` on.
  abbrev pub links : ℕ → ℕ → Cells D → List (ℕ × ℕ)
  links zero i xs = []
  links (suc n) i xs = (i, head_or header (at sz i xs)) ∷ links n (i + 1) xs

  -- The nodes in order, numbered behind `cnt`.
  abbrev pub infos : ℕ → Cells D → List Info
  infos cnt [] = []
  infos cnt ((a, v) ∷ xs) = node_info (cnt + 1) a (sz a) (links (sz a) 0 xs) ∷ infos (cnt + 1) xs

module _ {D : Type 0} (h : Heap D) (l : SkipList D) where
  node_links-links :
      (a : ℕ) (xs : Cells D) (n i : ℕ)
      → i + n ≤ h.cap a
      → ((k : ℕ) → i ≤ k → k < i + n → h.next a k ≡ head_or l.header (at h.sz k xs))
      → node_links h a n i ≡ some (links h.sz l.header n i xs)
  unfolding node_links
  node_links-links a xs zero i room next = refl
  node_links-links a xs (suc n) i room next =
      rw
        (
          load-some h a i (omega arith),
          ◌>>=◌,
          next i (omega arith) (omega arith),
          node_links-links a xs n (i + 1) (omega arith)
              (λ k low high. next k (omega arith) (omega arith)),
          ◌>>=◌,
        )
        refl

  -- The levels of the cells `xs`, whose node in front is `before i` on level `i`.
  abbrev Linked : (ℕ → ℕ) → Cells D → Type 0
  Linked before xs = (i : ℕ) → i < l.curlevel → Chain h.next l.header i (before i) (at h.sz i xs)

  Linked-next :
      (before : ℕ → ℕ) (a : ℕ) (v : D) (xs : Cells D)
      → Linked before ((a, v) ∷ xs)
      → Linked (λ i. if ltb i (h.sz a) then a else before i) xs
  Linked-next before a v xs linked i high = elim (Bool-cases (ltb i (h.sz a))) [
    | inl e ↦ rw e (subst (Chain h.next l.header i (before i)) (at_on e) (linked i high)).1
    | inr e ↦ rw e (subst (Chain h.next l.header i (before i)) (at_off e) (linked i high))
  ]
    where
      at_on : ltb i (h.sz a) ≡ true → at h.sz i ((a, v) ∷ xs) ≡ a ∷ at h.sz i xs
      at_on e = rw e refl

      at_off : ltb i (h.sz a) ≡ false → at h.sz i ((a, v) ∷ xs) ≡ at h.sz i xs
      at_off e = rw e refl

  -- On its levels the node's pointers lead to the next nodes.
  Linked-head :
      (before : ℕ → ℕ) (a : ℕ) (v : D) (xs : Cells D)
      → Linked before ((a, v) ∷ xs)
      → IsNode h l.curlevel a v
      → (k : ℕ) → 0 ≤ k
      → k < 0 + h.sz a
      → h.next a k ≡ head_or l.header (at h.sz k xs)
  Linked-head before a v xs linked node k low high =
      let on : ltb k (h.sz a) ≡ true = ground arith in
      Chain-head_or h.next l.header k a (at h.sz k xs) (
        subst (λ b. Chain h.next l.header k b (at h.sz k xs)) (rw on refl)
          (Linked-next before a v xs linked k (omega (arith, node.low))))

  info_loop-infos :
      (ys : Cells D) (before : ℕ → ℕ) (fuel cnt : ℕ)
      → length ys < fuel
      → has l.header (addrs ys) ≡ false
      → Linked before ys
      → Chain h.next l.header 0 (before 0) (addrs ys)
      → All (λ c. IsNode h l.curlevel c.0 c.1) ys
      → info_loop h l fuel (head_or l.header (addrs ys)) cnt ≡ some (infos h.sz l.header cnt ys)
  unfolding info_loop
  info_loop-infos ys before zero cnt short out linked chain nodes = absurd (omega arith)
  info_loop-infos [] before (suc fuel) cnt short out linked chain nodes =
      rw (info_loop, ==_self l.header) refl
  info_loop-infos ((a, v) ∷ ys) before (suc fuel) cnt short out linked chain nodes =
      let differs : (a == l.header) ≡ false = ground arith in
      let on : ltb 0 (h.sz a) ≡ true = ground (arith, nodes.0.pos) in
      rw
        (
          info_loop,
          differs,
          node_links-links a ys (h.sz a) 0 (omega (arith, nodes.0.full))
              (Linked-head before a v ys linked nodes.0),
          ◌>>=◌,
          load-some h a 0 (omega (arith, nodes.0.full, nodes.0.pos)),
          ◌>>=◌,
          Chain-head_or h.next l.header 0 a (addrs ys) chain.1,
          info_loop-infos ys (λ i. if ltb i (h.sz a) then a else before i) fuel (cnt + 1)
              (omega arith) (ground arith) (Linked-next before a v ys linked) (rw on chain.1)
              nodes.1,
          ◌>>=◌,
        )
        refl

-- Of a well-formed list, MySKLdisplayListStruct prints the number of nodes, the header and the
-- number of levels, and then the nodes in order, numbered from 1: for each the number of its levels
-- and, on each of its levels, the next node in order that has this level, or the header behind the
-- last.
pub display_list_struct-infos :
    {D : Type 0} {h : Heap D} {l : SkipList D} {xs : Cells D}
    → IsSkipList h l xs
    → display_list_struct h (some l)
      ≡ some (list_info (length xs) l.header l.maxlevel ∷ infos h.sz l.header 0 xs)
unfolding display_list_struct print_list_info
display_list_struct-infos {h} {l} {xs} inv =
    rw
      (
        verify_list-true inv,
        load-some h l.header 0 (omega (arith, inv.room, maxlevel_pos inv)),
        ◌>>=◌,
        Chain-head_or h.next l.header 0 l.header (addrs xs) (Chain-addrs inv),
        info_loop-infos h l xs (λ i. l.header) (rounds l) 0 (omega (arith, inv.count)) inv.apart.0
            (λ i high. inv.chains i (omega (arith, inv.fits))) (Chain-addrs inv) inv.nodes,
        ◌>>=◌,
        inv.count,
      )
      refl
