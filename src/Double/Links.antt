-- ===== src/Double/Links.antt =====
-- The pointers of a level in a build with double links: those in `prev` lead back along those in
-- `next`, and an insertion and a deletion on the level keep it so.
use myskl.Prelude.{
  ℕ, ◌<◌, ◌≡◌, ◌≢◌, refl, false, true, some, List, [], ◌∷◌, ◌++◌, arith, ◌>>=◌, ◌||◌, ◌==◌,
  if◌then◌else◌, last_or,
}
use myskl.Heap.{update_entry}
use myskl.Heap.Chain.{
  has, has-append, Distinct, Chain, Chain-insert, Chain-remove, Chain-drop, Chain-head_or, head_or,
  has-last_or, ne-last_or, Distinct-remove, Distinct-middle,
}
use myskl.Heap.Writes.{load-some, store-some}
use myskl.Insert.Links.{link_lem}
use myskl.Double.{DoubleHeap, store_prev, link_double, unlink_double}

-- From `stop` the entries `i` of `prev` lead back through the list `xs` behind node `x` to `x`.
abbrev pub Back : (ℕ → ℕ → ℕ) → ℕ → ℕ → ℕ → List ℕ → Type 0
Back prev stop i x [] = prev stop i ≡ x
Back prev stop i x (a ∷ xs) = (prev a i ≡ x) × Back prev stop i a xs

module _ (prev : ℕ → ℕ → ℕ) (stop i : ℕ) where
  ne-head :
      (c : ℕ) (us vs : List ℕ)
      → has c (us ++ vs) ≡ false
      → c ≢ stop
      → (c == head_or stop vs) ≡ false
  ne-head c us [] out ne = ground arith
  ne-head c us (e ∷ vs) out ne = ground (arith, has-append c us (e ∷ vs))

  pub Back-frame :
      (prev' : ℕ → ℕ → ℕ) (x : ℕ) (xs : List ℕ)
      → ((a : ℕ) → (a == stop) || has a xs ≡ true → prev' a i ≡ prev a i)
      → Back prev stop i x xs
      → Back prev' stop i x xs
  Back-frame prev' x [] same b = ground (arith, same stop)
  Back-frame prev' x (a ∷ xs) same b =
      (ground (arith, same a), Back-frame prev' a xs (λ c e. same c (ground arith)) b.1)

  Back-insert :
      (prev' : ℕ → ℕ → ℕ) (x n : ℕ) (us vs : List ℕ)
      → Distinct (us ++ vs)
      → has stop (us ++ vs) ≡ false
      → n ≢ stop
      → has n (us ++ vs) ≡ false
      → ((a : ℕ)
          → prev' a i
            ≡ (if a == n then last_or x us else if a == head_or stop vs then n else prev a i))
      → Back prev stop i x (us ++ vs)
      → Back prev' stop i x (us ++ n ∷ vs)
  Back-insert prev' x n [] [] d end ne out eq b = (ground (arith, eq n), ground (arith, eq stop))
  Back-insert prev' x n [] (c ∷ vs) d end ne out eq b = (
    ground (arith, eq n),
    (ground (arith, eq c), Back-frame prev' c vs (λ a e. ground (arith, eq a)) b.1),
  )
  Back-insert prev' x n (c ∷ us) vs d end ne out eq b = (
    ground (arith, eq c, ne-head c us vs),
    Back-insert prev' c n us vs d.1 (ground arith) ne (ground arith) eq b.1,
  )

  Back-remove :
      (prev' : ℕ → ℕ → ℕ) (x n : ℕ) (us vs : List ℕ)
      → Distinct (us ++ n ∷ vs)
      → has stop (us ++ n ∷ vs) ≡ false
      → ((a : ℕ) → prev' a i ≡ (if a == head_or stop vs then last_or x us else prev a i))
      → Back prev stop i x (us ++ n ∷ vs)
      → Back prev' stop i x (us ++ vs)
  Back-remove prev' x n [] [] d end eq b = ground (arith, eq stop)
  Back-remove prev' x n [] (c ∷ vs) d end eq b =
      (ground (arith, eq c), Back-frame prev' c vs (λ a e. ground (arith, eq a)) b.1.1)
  Back-remove prev' x n (c ∷ us) vs d end eq b = (
    ground (arith, eq c, ne-head c us vs, has-append c us (n ∷ vs), has-append c us vs),
    Back-remove prev' c n us vs d.1 (ground arith) eq b.1,
  )

module _ {D : Type 0} where
  -- On level `i` the pointers lead from the header through the nodes `ns` and back.
  pub record Ring (d : DoubleHeap D) (header i : ℕ) (ns : List ℕ) : Type 0 where
    pub forth : Chain d.heap.next header i header ns
    pub back : Back d.prev header i header ns

  -- Only pointers of level `i` differ.
  pub record SameLevels (i : ℕ) (d d' : DoubleHeap D) : Type 0 where
    pub next : (a j : ℕ) → j ≢ i → d'.heap.next a j ≡ d.heap.next a j
    pub prev : (a j : ℕ) → j ≢ i → d'.prev a j ≡ d.prev a j
    pub cap : d'.heap.cap ≡ d.heap.cap
    pub sz : d'.heap.sz ≡ d.heap.sz
    pub val : d'.heap.val ≡ d.heap.val

  store_prev-some :
      (d : DoubleHeap D) (a i b : ℕ)
      → i < d.heap.cap a
      → store_prev d a i b ≡ some (record d { prev = update_entry d.prev a i b })
  unfolding store_prev
  store_prev-some d a i b lt = ground arith

  module _ (d : DoubleHeap D) (header i x : ℕ) (us vs : List ℕ)
      (room : (a : ℕ) → has a (header ∷ us ++ x ∷ vs) ≡ true → i < d.heap.cap a)
      (apart : Distinct (header ∷ us ++ x ∷ vs)) where
    pub wide_last : i < d.heap.cap (last_or header us)
    wide_last =
        room _ (ground (arith, has-append (last_or header us) us (x ∷ vs), has-last_or header us))

    wide_head : i < d.heap.cap (head_or header vs)
    wide_head = room _ (has_head us vs)
      where
        has_head : (us vs : List ℕ) → has (head_or header vs) (header ∷ us ++ x ∷ vs) ≡ true
        has_head us [] = ground arith
        has_head us (b ∷ vs) = ground (arith, has-append b us (x ∷ b ∷ vs))

    wide_new : i < d.heap.cap x
    wide_new = room x (ground (arith, has-append x us (x ∷ vs)))

    abbrev before : ℕ
    before = last_or header us

    x-before : x ≢ before
    x-before e = absurd (
        ground (
          arith,
          e,
          has-append x us (x ∷ vs),
          has-append header us (x ∷ vs),
          Distinct-middle x us vs apart.1,
          has-last_or header us,
          ne-last_or x header us,
        ))

    shorter : Distinct (header ∷ us ++ vs)
    shorter = Distinct-remove x (header ∷ us) vs apart

    out : has x (us ++ vs) ≡ false
    out = ground (arith, has-append x us vs, Distinct-middle x us vs apart.1)

    x-header : x ≢ header
    x-header e = absurd (ground (arith, e, has-append header us (x ∷ vs), apart.0))

    -- A level of an insertion, in a build with double links: node `x` is linked between the nodes
    -- `us` and `vs`, forwards and backwards, and no other level changes.
    pub link_double-Ring :
        Ring d header i (us ++ vs)
        → (d' : DoubleHeap D) × (link_double x i (last_or header us) d ≡ some d')
          × Ring d' header i (us ++ x ∷ vs)
          × SameLevels i d d'
    unfolding link_double update_entry
    link_double-Ring ring =
        let after =
          Chain-head_or d.heap.next header i before vs
            (Chain-drop d.heap.next header i header us vs ring.forth) in
        let h1 = record d.heap {
          next = update_entry (update_entry d.heap.next x i (d.heap.next before i)) before i x;
        } in
        let linked : h1.next x i ≡ head_or header vs = ground (arith, x-before, after) in
        let d1 = record d { heap = h1 } in
        let d2 = record d1 { prev = update_entry d.prev (head_or header vs) i x } in
        let d3 = record d1 { prev = update_entry d2.prev x i before } in
        (
          d3,
          rw
              (
                link_lem x i before d.heap wide_last wide_new,
                ◌>>=◌,
                load-some h1 x i wide_new,
                ◌>>=◌,
                linked,
                store_prev-some d1 (head_or header vs) i x wide_head,
                ◌>>=◌,
                store_prev-some d2 x i before wide_new,
              )
              refl,
          record {
            forth =
                Chain-insert d.heap.next header i h1.next header x us vs shorter x-header out
                  (λ a. ground (arith, x-before)) ring.forth;
            back =
                Back-insert d.prev header i d3.prev header x us vs shorter.1 shorter.0 x-header out
                  (λ a. ground arith) ring.back;
          },
          record {
            next = λ a j ne. ground arith;
            prev = λ a j ne. ground arith;
            cap = refl;
            sz = refl;
            val = refl;
          },
        )

    -- A level of a deletion, in a build with double links: node `x` between the nodes `us` and `vs`
    -- is unlinked, forwards and backwards, and no other level changes.
    pub unlink_double-Ring :
        Ring d header i (us ++ x ∷ vs)
        → (d' : DoubleHeap D) × (unlink_double x i (last_or header us) d ≡ some d')
          × Ring d' header i (us ++ vs)
          × SameLevels i d d'
    unfolding unlink_double update_entry
    unlink_double-Ring ring =
        let dropped = Chain-drop d.heap.next header i header us (x ∷ vs) ring.forth in
        let after = Chain-head_or d.heap.next header i x vs dropped.1 in
        let h1 = record d.heap { next = update_entry d.heap.next before i (head_or header vs) } in
        let d1 = record d { heap = h1 } in
        let d2 = record d1 { prev = update_entry d.prev (head_or header vs) i before } in
        (
          d2,
          rw
              (
                load-some d.heap x i wide_new,
                ◌>>=◌,
                after,
                store-some d.heap before i (head_or header vs) wide_last,
                ◌>>=◌,
                store_prev-some d1 (head_or header vs) i before wide_head,
              )
              refl,
          record {
            forth =
                Chain-remove d.heap.next header i h1.next header x us vs apart
                  (λ a. ground (arith, after)) ring.forth;
            back =
                Back-remove d.prev header i d2.prev header x us vs apart.1 apart.0
                  (λ a. ground arith) ring.back;
          },
          record {
            next = λ a j ne. ground arith;
            prev = λ a j ne. ground arith;
            cap = refl;
            sz = refl;
            val = refl;
          },
        )
