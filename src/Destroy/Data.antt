-- ===== src/Destroy/Data.antt =====
-- `MySKLdestroy` of src/skl_dst.c with the client's function that destroys the data of a node.
use myskl.Prelude.{
  ℕ, zero, suc, ◌+◌, ◌<◌, ◌≡◌, ◌≢◌, refl, ap, ◌∙◌, true, false, Option, some, none, [], ◌∷◌, arith,
  ◌>>=◌, length, All, ne→==, ==_self, if◌then◌else◌, Bool,
}
use myskl.Heap.{Heap, update}
use myskl.Heap.Chain.{has, Distinct, Chain, head_or, Chain-head_or}
use myskl.Heap.Writes.{load-some, update_ne}
use myskl.SkipList.{SkipList, rounds}
use myskl.SkipList.Cells.{Cells, addrs}
use myskl.SkipList.Invariant.{IsSkipList, IsNode}
use myskl.SkipList.Guards.{verify_list-true, maxlevel_pos}
use myskl.Destroy.{
  destroy_loop, destroy_hdr, destroy_list, destroy_data, destroy_loop_data, destroy_list_data,
}
use myskl.Destroy.Freed.{destroy_each_lem, Chain-addrs}

module _ {D : Type 0} where
  -- A node that is still there
  record IsWhole (h : Heap D) (header : ℕ) (c : ℕ × D) : Type 0 where
    inside : c.0 ≢ header
    holds : h.val c.0 ≡ some c.1
    wide : 0 < h.cap c.0

  abbrev released : Heap D → ℕ → Heap D
  released h a = record h {
    cap = update h.cap a 0;
    val = update h.val a none;
    stat = record h.stat { freed_count = h.stat.freed_count + 1 };
  }

  rest-IsWhole :
      (h : Heap D) (header a : ℕ) (xs : Cells D)
      → has a (addrs xs) ≡ false
      → All (IsWhole h header) xs
      → All (IsWhole (released h a) header) xs
  rest-IsWhole h header a [] out whole = tt
  rest-IsWhole h header a ((b, v) ∷ xs) out whole = (
    record {
      inside = whole.0.inside;
      holds = update_ne h.val a none {x = b} (ground arith) ∙ whole.0.holds;
      wide = rw (update_ne h.cap a 0 {x = b} (ground arith)) whole.0.wide;
    },
    rest-IsWhole h header a xs (ground arith) whole.1,
  )

module _ {D E : Type 0} (dstdatafunc : Option (ℕ → Option D → E → E)) where
  -- The function applied to each node with its data, in order
  abbrev pub each_data : Cells D → E → E
  each_data [] e = e
  each_data ((a, v) ∷ xs) e = each_data xs (elim dstdatafunc [ none ↦ e | some f ↦ f a (some v) e ])

  destroy_data-holds :
      (h : Heap D) (a : ℕ) (v : D) (e : E)
      → h.val a ≡ some v
      → destroy_data dstdatafunc h a e ≡ elim dstdatafunc [ none ↦ e | some f ↦ f a (some v) e ]
  unfolding destroy_data
  destroy_data-holds h a v e holds =
      ap (λ o. elim dstdatafunc [ none ↦ e | some f ↦ f a o e ]) holds

  module _ (l : SkipList D) where
    -- The loop does what it does without the function, and the function takes each node.
    destroy_loop_data-each_data :
        (xs : Cells D) (h : Heap D) (fuel : ℕ) (e : E)
        → length xs < fuel
        → Distinct (addrs xs)
        → All (IsWhole h l.header) xs
        → (p : ℕ) → Chain h.next l.header 0 p (addrs xs)
        → destroy_loop_data dstdatafunc l fuel h (head_or l.header (addrs xs)) e ≡ (
            destroy_loop l fuel h (head_or l.header (addrs xs)) >>= λ h'. some (h', each_data xs e))
    unfolding destroy_loop_data destroy_loop
    destroy_loop_data-each_data xs h zero e short distinct whole p chain = absurd (omega arith)
    destroy_loop_data-each_data [] h (suc fuel) e short distinct whole p chain =
        rw (destroy_loop_data, destroy_loop, ==_self l.header, ◌>>=◌) refl
    destroy_loop_data-each_data ((a, v) ∷ xs) h (suc fuel) e short distinct whole p chain =
        rw
          (
            destroy_loop_data,
            destroy_loop,
            ne→== a l.header whole.0.inside,
            load-some h a 0 whole.0.wide,
            ◌>>=◌,
            destroy_each_lem l h a whole.0.wide,
            destroy_data-holds h a v e whole.0.holds,
            Chain-head_or h.next l.header 0 a (addrs xs) chain.1,
          )
          (destroy_loop_data-each_data xs (released h a) fuel _ (omega arith) distinct.1
            (rest-IsWhole h l.header a xs distinct.0 whole.1) a chain.1)

module _ {D : Type 0} (h : Heap D) (l : SkipList D) where
  nodes-IsWhole :
      (ys : Cells D)
      → All (λ c. IsNode h l.curlevel c.0 c.1) ys
      → has l.header (addrs ys) ≡ false
      → All (IsWhole h l.header) ys
  nodes-IsWhole [] nodes out = tt
  nodes-IsWhole ((a, v) ∷ ys) nodes out = (
    record {
      inside = λ e. absurd (ground (arith, e));
      holds = nodes.0.holds;
      wide = omega (arith, nodes.0.full, nodes.0.pos);
    },
    nodes-IsWhole ys nodes.1 (ground arith),
  )

when_true :
    {X Y : Type 0} (b : Bool) (f f' : Option X) (g g' : Option Y) (k : Y → Option X)
    → b ≡ true
    → f ≡ (g >>= k)
    → (if b then f else f') ≡ ((if b then g else g') >>= k)
when_true true f f' g g' k e same = same
when_true false f f' g g' k e same = absurd (ground arith)

module _ {D E : Type 0} {h : Heap D} {l : SkipList D} {xs : Cells D} (inv : IsSkipList h l xs) where
  bind_pair :
      (m : Option (Heap D)) (x : E)
      → ◌>>=◌ {B = Option (SkipList D) × Heap D × E}
          (◌>>=◌ {B = Heap D × E} m (λ h'. some (h', x)))
          (λ r. some (none, destroy_hdr l r.0, r.1))
        ≡ ◌>>=◌ {B = Option (SkipList D) × Heap D × E}
            (◌>>=◌ {B = Option (SkipList D) × Heap D} m (λ h'. some (none, destroy_hdr l h')))
            (λ r. some (r.0, r.1, x))
  bind_pair none x = refl
  bind_pair (some h') x = refl

  -- On a well-formed list with a destroyer of nodes, MySKLdestroy with a function that destroys data
  -- does to the library's memory what it does without it, and passes each node of the list to the
  -- function once, in order, while the node's data is still there; without the function the client's
  -- state stays as it is.
  pub destroy_list_data-each_data :
      (dstdatafunc : Option (ℕ → Option D → E → E)) (e : E)
      → l.dst ≡ true
      → destroy_list_data dstdatafunc (some l) h e
        ≡ (destroy_list (some l) h >>= λ r. some (r.0, r.1, each_data dstdatafunc xs e))
  unfolding destroy_list_data destroy_list
  destroy_list_data-each_data dstdatafunc e has_dst = rw (verify_list-true inv) (
      when_true l.dst _ _ _ _ _ has_dst (
        rw
          (
            load-some h l.header 0 (omega (arith, inv.room, maxlevel_pos inv)),
            ◌>>=◌,
            Chain-head_or h.next l.header 0 l.header (addrs xs) (Chain-addrs inv),
            destroy_loop_data-each_data dstdatafunc l xs h (rounds l) e (omega (arith, inv.count))
                inv.apart.1 (nodes-IsWhole h l xs inv.nodes inv.apart.0) l.header (Chain-addrs inv),
          )
          (bind_pair (destroy_loop l (rounds l) h (head_or l.header (addrs xs)))
            (each_data dstdatafunc xs e))))
