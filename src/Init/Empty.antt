-- ===== src/Init/Empty.antt =====
-- `MySKLinit` of src/skl_init.c: each of its allocations may fail.
use myskl.Prelude.{
  ℕ, zero, suc, ◌+◌, ◌≤◌, ◌<◌, ◌≡◌, ◌≢◌, refl, ap, ◌∙◌, Bool, true, false, Option, some, none, [],
  Ordering, arith, ◌>>=◌, ◌⊎◌, inl, inr, Bool-cases, le→leb, lt→ltb,
}
use myskl.Heap.{Heap, update, alloc}
use myskl.Heap.Writes.{update_self}
use myskl.SkipList.{Status, null, status_ok, mem_exhausted, randgen_error, error, max_levels}
use myskl.SkipList.Cells.{IsOrder}
use myskl.SkipList.Invariant.{IsSkipList}
use myskl.Insert.{alloc_next}
use myskl.Insert.Nodes.{nil_next_lem, counted, refused}
use myskl.Init.{free_blocks, new_list, setinfo, init, init_list}

module _ {D : Type 0} where
  -- The heap after an allocation that succeeds, and after one that fails.
  abbrev pub given_block : Heap D → Heap D
  given_block h = record h { stat = counted h.stat }

  abbrev pub refused_block : Heap D → Heap D
  refused_block h = record h { stat = refused h.stat }

  abbrev given_array : Heap D → ℕ → ℕ → Heap D
  given_array h x dim = record h { cap = update (update h.cap x 0) x dim; stat = counted h.stat }

  abbrev refused_array : Heap D → ℕ → Heap D
  refused_array h x = record h { cap = update h.cap x 0; stat = refused h.stat }

  pub alloc-given : (h : Heap D) → h.avail h.stat.calls ≡ true → alloc h ≡ (true, given_block h)
  unfolding alloc
  alloc-given h e = rw e

  pub alloc-refused :
      (h : Heap D) → h.avail h.stat.calls ≡ false → alloc h ≡ (false, refused_block h)
  unfolding alloc
  alloc-refused h e = rw e

  alloc_next-given :
      (h : Heap D) (x dim : ℕ)
      → 1 ≤ dim
      → h.avail h.stat.calls ≡ true
      → alloc_next h x dim ≡ (true, given_array h x dim)
  unfolding alloc_next alloc
  alloc_next-given h x dim pos e = rw (e, lt→ltb 0 dim pos)

  alloc_next-refused :
      (h : Heap D) (x dim : ℕ)
      → 1 ≤ dim
      → h.avail h.stat.calls ≡ false
      → alloc_next h x dim ≡ (false, refused_array h x)
  unfolding alloc_next alloc
  alloc_next-refused h x dim pos e = rw (e, lt→ltb 0 dim pos)

module _ {D : Type 0} (h : Heap D) (header max : ℕ) (compare : D → D → Ordering) (dst : Bool)
    (pos : 1 ≤ max) (low : max ≤ max_levels) where
  -- The heap after the four allocations, the header's pointers being `f`.
  abbrev pub built : (ℕ → ℕ → ℕ) → Heap D
  built f =
      let st = h.stat in
      record h {
        next = f;
        cap = update (update h.cap header 0) header max;
        sz = update h.sz header max;
        stat = record st {
          calls = st.calls + 1 + 1 + 1 + 1;
          alloc_count = st.alloc_count + 1 + 1 + 1 + 1;
        };
      }

  abbrev allocated : Heap D
  allocated = given_array (given_block (given_block (given_block h))) header max

  avail_at :
      (k n : ℕ) (b : Bool) → n ≡ h.stat.calls + k → h.avail (h.stat.calls + k) ≡ b → h.avail n ≡ b
  avail_at k n b e r = ap h.avail e ∙ r

  none_failed :
      (k : ℕ)
      → k < 4
      → h.avail h.stat.calls ≡ true
      → h.avail (h.stat.calls + 1) ≡ true
      → h.avail (h.stat.calls + 1 + 1) ≡ true
      → h.avail (h.stat.calls + 1 + 1 + 1) ≡ true
      → h.avail (h.stat.calls + k) ≡ true
  none_failed zero lt r0 r1 r2 r3 = ap h.avail (omega arith) ∙ r0
  none_failed (suc zero) lt r0 r1 r2 r3 = ap h.avail (omega arith) ∙ r1
  none_failed (suc (suc zero)) lt r0 r1 r2 r3 = ap h.avail (omega arith) ∙ r2
  none_failed (suc (suc (suc zero))) lt r0 r1 r2 r3 = ap h.avail (omega arith) ∙ r3
  none_failed (suc (suc (suc (suc k)))) lt r0 r1 r2 r3 = absurd (omega arith)

  init_list-init : init_list h header max (some compare) dst ≡ init h header max compare dst
  unfolding init_list
  init_list-init = rw (lt→ltb 0 max pos, le→leb max max_levels low)

  init-setinfo :
      ((k : ℕ) → k < 4 → h.avail (h.stat.calls + k) ≡ true)
      → init h header max compare dst ≡ setinfo allocated header max compare dst
  unfolding init
  init-setinfo room =
      let r0 = avail_at 0 h.stat.calls true (omega arith) (room 0 (omega arith)) in
      let r1 = avail_at 1 (h.stat.calls + 1) true (omega arith) (room 1 (omega arith)) in
      let r2 = avail_at 2 (h.stat.calls + 1 + 1) true (omega arith) (room 2 (omega arith)) in
      let r3 = avail_at 3 (h.stat.calls + 1 + 1 + 1) true (omega arith) (room 3 (omega arith)) in
      let h1 = given_block h in
      let h2 = given_block h1 in
      let h3 = given_block h2 in
      rw (
        alloc-given h r0,
        alloc-given h1 r1,
        alloc-given h2 r2,
        alloc_next-given h3 header max pos r3,
      )

  pub init_list-built :
      IsOrder compare
      → header ≢ null
      → ((k : ℕ) → k < 4 → h.avail (h.stat.calls + k) ≡ true)
      → (f : ℕ → ℕ → ℕ) × (init_list h header max (some compare) dst
          ≡ some (status_ok, some (new_list header max compare dst), built f))
        × IsSkipList (built f) (new_list header max compare dst) []
  unfolding setinfo new_list
  init_list-built ord real room =
      let l = new_list header max compare dst in
      let full = update_self (update h.cap header 0) header max in
      let (f, run, _, ends, _) =
        nil_next_lem l header max 0 (record allocated { sz = update h.sz header max })
          (omega (arith, full)) in
      (
        f,
        init_list-init ∙ init-setinfo room ∙ ap (λ o. o >>= λ h'. some (status_ok, some l, h')) run,
        record {
          order = ord;
          magic = refl;
          has_header = real;
          small = low;
          top = refl;
          fits = pos;
          room = full;
          apart = (refl, tt);
          nodes = tt;
          sorted = tt;
          chains = λ i lt. ends i (omega arith) (omega arith);
          count = refl;
          last = refl;
        },
      )

  -- If four allocations succeed and the one of the header does not give NULL, `MySKLinit` with an
  -- order and a number of levels from 1 to MYSKL_MAXLEVELS reports success, and its list is well formed
  -- and holds no node; four blocks have been allocated and none freed.
  pub init_list-IsSkipList :
      IsOrder compare
      → header ≢ null
      → ((k : ℕ) → k < 4 → h.avail (h.stat.calls + k) ≡ true)
      → (h' : Heap D) × (init_list h header max (some compare) dst
          ≡ some (status_ok, some (new_list header max compare dst), h'))
        × IsSkipList h' (new_list header max compare dst) []
        × (h'.stat.alloc_count ≡ h.stat.alloc_count + 4)
        × (h'.stat.freed_count ≡ h.stat.freed_count)
  init_list-IsSkipList ord real room =
      let (f, run, kept) = init_list-built ord real room in (built f, run, kept, omega arith, refl)

  -- If one of its four allocations fails, `MySKLinit` with a comparison and a number of levels
  -- from 1 to MYSKL_MAXLEVELS gives no list, reports MYSKL_RANDGEN_ERROR or
  -- MYSKL_MEM_EXHAUSTED, and has freed as many blocks as it has allocated.
  init_list-freed :
      (k : ℕ)
      → k < 4
      → h.avail (h.stat.calls + k) ≡ false
      → (status : Status) × (h' : Heap D) × (init_list h header max (some compare) dst
          ≡ some (status, none, h'))
        × ((status ≡ randgen_error) ⊎ (status ≡ mem_exhausted))
        × (h'.stat.alloc_count + h.stat.freed_count ≡ h.stat.alloc_count + h'.stat.freed_count)
  unfolding init free_blocks
  init_list-freed k lt failed =
      let h1 = given_block h in
      let h2 = given_block h1 in
      let h3 = given_block h2 in
      elim (Bool-cases (h.avail h.stat.calls)) [
        | inr bad ↦ (
          randgen_error,
          refused_block h,
          init_list-init ∙ rw (alloc-refused h bad) refl,
          inl refl,
          omega arith,
        )
        | inl r0 ↦ elim (Bool-cases (h1.avail h1.stat.calls)) [
          | inr bad ↦ (
            mem_exhausted,
            free_blocks (refused_block h1) 1,
            init_list-init ∙ rw (alloc-given h r0, alloc-refused h1 bad) refl,
            inr refl,
            omega arith,
          )
          | inl r1 ↦ elim (Bool-cases (h2.avail h2.stat.calls)) [
            | inr bad ↦ (
              mem_exhausted,
              free_blocks (refused_block h2) 2,
              init_list-init ∙ rw (alloc-given h r0, alloc-given h1 r1, alloc-refused h2 bad) refl,
              inr refl,
              omega arith,
            )
            | inl r2 ↦ elim (Bool-cases (h3.avail h3.stat.calls)) [
              | inr bad ↦ (
                mem_exhausted,
                free_blocks (refused_array h3 header) 3,
                init_list-init
                    ∙ rw
                        (
                          alloc-given h r0,
                          alloc-given h1 r1,
                          alloc-given h2 r2,
                          alloc_next-refused h3 header max pos bad,
                        )
                        refl,
                inr refl,
                omega arith,
              )
              | inl r3 ↦ absurd (ground (arith, none_failed k lt r0 r1 r2 r3))
            ]
          ]
        ]
      ]

-- Without a comparison, with no level or with more than MYSKL_MAXLEVELS levels, `MySKLinit`
-- reports MYSKL_ERROR, gives no list and does not change the heap.
init_list-error :
    {D : Type 0} (h : Heap D) (header max : ℕ) (compare : Option (D → D → Ordering)) (dst : Bool)
    → (compare ≡ none) ⊎ (max ≡ 0) ⊎ (max_levels < max)
    → init_list h header max compare dst ≡ some (error, none, h)
unfolding init_list
init_list-error h header max none dst bad = refl
init_list-error h header max (some compare) dst bad = ground arith
