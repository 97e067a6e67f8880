-- ===== src/Destroy/Freed.antt =====
-- `MySKLdestroy` of src/skl_dst.c: the loop over level 0, and the header.
use myskl.Prelude.{
  ℕ, zero, suc, ◌+◌, ◌<◌, ◌≡◌, ◌≢◌, refl, ap, ◌∙◌, subst, true, false, some, none, List, [], ◌∷◌,
  arith, ◌>>=◌, length, All, All-mono, ne→==, ==_self, Bool-cases, inl, inr, Bool, if◌then◌else◌,
}
use myskl.Heap.{Heap, update, free_next}
use myskl.Heap.Chain.{has, Distinct, Chain, head_or, Chain-head_or}
use myskl.Heap.Writes.{load-some, update_self, update_ne}
use myskl.SkipList.{SkipList, rounds}
use myskl.SkipList.Cells.{Cells, addrs, at_zero}
use myskl.SkipList.Invariant.{IsSkipList, IsNode}
use myskl.SkipList.Guards.{verify_list-true, maxlevel_pos}
use myskl.Init.{free_blocks}
use myskl.Destroy.{destroy_each, destroy_loop, destroy_hdr, destroy_list}
use myskl.SkipList.Frame.{SameNode}

-- The nodes `ns`, with their arrays, have been released, and no other node is touched.
pub record Freed {D : Type 0} (h : Heap D) (ns : List ℕ) (h' : Heap D) : Type 0 where
  pub gone : (a : ℕ) → has a ns ≡ true → (h'.cap a ≡ 0) × (h'.val a ≡ none)
  pub stay : (a : ℕ) → has a ns ≡ false → (h'.cap a ≡ h.cap a) × (h'.val a ≡ h.val a)
  pub next : h'.next ≡ h.next
  pub sz : h'.sz ≡ h.sz
  pub alloc_count : h'.stat.alloc_count ≡ h.stat.alloc_count
  pub freed_count : h'.stat.freed_count ≡ h.stat.freed_count + length ns

module _ {D : Type 0} (l : SkipList D) where
  pub destroy_each_lem :
      (h : Heap D) (a : ℕ)
      → 0 < h.cap a
      → destroy_each h a ≡ record h {
        cap = update h.cap a 0;
        val = update h.val a none;
        stat = record h.stat { freed_count = h.stat.freed_count + 1 };
      }
  unfolding destroy_each free_next
  destroy_each_lem h a wide = ground arith

  others_wide :
      (a : ℕ) (ns : List ℕ) (h : Heap D)
      → has a ns ≡ false
      → All (λ b. (b ≢ l.header) × (0 < h.cap b)) ns
      → All (λ b. (b ≢ l.header) × (0 < update h.cap a 0 b)) ns
  others_wide a [] h out nodes = tt
  others_wide a (b ∷ ns) h out nodes = (
    (nodes.0.0, rw (update_ne h.cap a 0 {x = b} (ground arith)) nodes.0.1),
    others_wide a ns h (ground arith) nodes.1,
  )

  abbrev pub without_header : Heap D → Heap D
  without_header h = record h {
    cap = update h.cap l.header 0;
    stat = record h.stat { freed_count = h.stat.freed_count + 4 };
  }

  destroy_hdr_lem : (h : Heap D) → 0 < h.cap l.header → destroy_hdr l h ≡ without_header h
  unfolding destroy_hdr free_blocks free_next
  destroy_hdr_lem h wide = ground arith

  destroy_loop-Freed :
      (ns : List ℕ) (h : Heap D) (fuel : ℕ)
      → length ns < fuel
      → Distinct ns
      → All (λ a. (a ≢ l.header) × (0 < h.cap a)) ns
      → (p : ℕ) → Chain h.next l.header 0 p ns
      → (h' : Heap D) × (destroy_loop l fuel h (head_or l.header ns) ≡ some h') × Freed h ns h'
  unfolding destroy_loop
  destroy_loop-Freed ns h zero short distinct nodes p chain = absurd (omega arith)
  destroy_loop-Freed [] h (suc fuel) short distinct nodes p chain = (
    h,
    rw (destroy_loop, ==_self l.header),
    record {
      gone = λ a e. absurd (ground arith);
      stay = λ a e. (refl, refl);
      next = refl;
      sz = refl;
      alloc_count = refl;
      freed_count = omega arith;
    },
  )
  destroy_loop-Freed (a ∷ ns) h (suc fuel) short distinct nodes p chain =
      let h1 : Heap D = record h {
        cap = update h.cap a 0;
        val = update h.val a none;
        stat = record h.stat { freed_count = h.stat.freed_count + 1 };
      } in
      let (h', run, freed) =
        destroy_loop-Freed ns h1 fuel (omega arith) distinct.1
          (others_wide a ns h distinct.0 nodes.1) a chain.1 in
      (
        h',
        rw
            (
              destroy_loop,
              ne→== a l.header nodes.0.0,
              load-some h a 0 nodes.0.1,
              ◌>>=◌,
              destroy_each_lem h a nodes.0.1,
              Chain-head_or h.next l.header 0 a ns chain.1,
            )
            run,
        record {
          gone = λ b e. elim (Bool-cases (has b ns)) [
            | inl later ↦ freed.gone b later
            | inr here ↦
                let same : b ≡ a = ground arith in
                let (no_cap, no_val) = freed.stay b here in
                (
                  no_cap ∙ ap (update h.cap a 0) same ∙ update_self h.cap a 0,
                  no_val ∙ ap (update h.val a none) same ∙ update_self h.val a none,
                )
          ];
          stay = λ b e.
              let (same_cap, same_val) = freed.stay b (ground arith) in
              (
                same_cap ∙ update_ne h.cap a 0 {x = b} (ground arith),
                same_val ∙ update_ne h.val a none {x = b} (ground arith),
              );
          next = freed.next;
          sz = freed.sz;
          alloc_count = freed.alloc_count;
          freed_count = omega (arith, freed.freed_count);
        },
      )

if-true {ℓ} : {A : Type ℓ} {b : Bool} (x y : A) → b ≡ true → (if b then x else y) ≡ x
if-true x y e = ap (λ c. if c then x else y) e

pub length-addrs : {D : Type 0} (xs : Cells D) → length (addrs xs) ≡ length xs
length-addrs [] = refl
length-addrs ((a, v) ∷ xs) = omega (arith, length-addrs xs)

module _ {D : Type 0} {h : Heap D} {l : SkipList D} {xs : Cells D} (inv : IsSkipList h l xs) where
  pub Chain-addrs : Chain h.next l.header 0 l.header (addrs xs)
  Chain-addrs =
      subst (Chain h.next l.header 0 l.header)
        (at_zero h.sz xs (All-mono _ _ (λ c p. p.pos) xs inv.nodes))
        (inv.chains 0 (maxlevel_pos inv))

  nodes_wide :
      (ys : Cells D)
      → All (λ c. IsNode h l.curlevel c.0 c.1) ys
      → has l.header (addrs ys) ≡ false
      → All (λ a. (a ≢ l.header) × (0 < h.cap a)) (addrs ys)
  nodes_wide [] nodes out = tt
  nodes_wide ((a, v) ∷ ys) nodes out = (
    (ground arith, omega (arith, nodes.0.full, nodes.0.pos)),
    nodes_wide ys nodes.1 (ground arith),
  )

  -- On a well-formed list that has a destroyer, `MySKLdestroy` ends and sets the list to NULL. Every
  -- node of the list has been released with its array, the header has no array any more, and no
  -- other node has changed; as many blocks have been freed as the list has nodes, and four more,
  -- and none has been allocated.
  pub destroy_list-Freed :
      l.dst ≡ true
      → (h' : Heap D) × (destroy_list (some l) h ≡ some (none, h'))
        × ((a : ℕ) → has a (addrs xs) ≡ true → (h'.cap a ≡ 0) × (h'.val a ≡ none))
        × (h'.cap l.header ≡ 0)
        × ((a : ℕ) → has a (l.header ∷ addrs xs) ≡ false → SameNode h h' a)
        × (h'.stat.alloc_count ≡ h.stat.alloc_count)
        × (h'.stat.freed_count ≡ h.stat.freed_count + length xs + 4)
  unfolding destroy_list
  destroy_list-Freed has_dst =
      let wide : 0 < h.cap l.header = omega (arith, inv.room, maxlevel_pos inv) in
      let (h1, run, freed) =
        destroy_loop-Freed l (addrs xs) h (rounds l) (omega (arith, inv.count, length-addrs xs))
          inv.apart.1 (nodes_wide xs inv.nodes inv.apart.0) l.header Chain-addrs in
      let (same_cap, _) = freed.stay l.header inv.apart.0 in
      (
        without_header l h1,
        rw (verify_list-true inv) (
            if-true _ _ has_dst
            ∙ rw
                (
                  load-some h l.header 0 wide,
                  ◌>>=◌,
                  Chain-head_or h.next l.header 0 l.header (addrs xs) Chain-addrs,
                  run,
                  ◌>>=◌,
                )
                (ap (λ z. some (none, z)) (destroy_hdr_lem l h1 (omega (arith, same_cap))))),
        λ a e.
            let (no_cap, no_val) = freed.gone a e in
            (update_ne h1.cap l.header 0 {x = a} (ground (arith, inv.apart.0)) ∙ no_cap, no_val),
        update_self h1.cap l.header 0,
        λ a e.
            let (cap, val) = freed.stay a (ground arith) in
            record {
              next = λ j. ap (λ f. f a j) freed.next;
              cap = update_ne h1.cap l.header 0 {x = a} (ground arith) ∙ cap;
              sz = ap (λ f. f a) freed.sz;
              val = val;
            },
        freed.alloc_count,
        omega (arith, freed.freed_count, length-addrs xs),
      )
