-- ===== src/Container/Stored.antt =====
-- Initialising the container of src/skl_lc.c and putting lists into it.
use myskl.Prelude.{
  ℕ, suc, ◌+◌, ◌^◌, ◌%◌, ◌≤◌, ◌<◌, ◌≡◌, refl, sym, ap, ◌∙◌, true, false, some, none, List, [], ◌∷◌,
  ◌++◌, arith, inl, inr, length, ltb, leb, lt→ltb, Bool-cases, ◌>>=◌, if◌then◌else◌, length-append,
  ◌||◌,
}
use myskl.Heap.{Heap, update, alloc}
use myskl.Heap.Writes.{update_self, update_ne}
use myskl.Container.{
  Acl, Container, start_container, lc_mstl, lc_full, acl_size, get_acl, realloc, alloc_extra_memory,
  create_lists_container, store_list, push_acl, push_into, init_lists_container,
}

-- The entries of the array from `i` on are the addresses `ps`.
abbrev pub Entries : Acl → ℕ → List ℕ → Type 0
Entries acl i [] = Unit
Entries acl i (p ∷ ps) = (get_acl acl i ≡ some p) × Entries acl (i + 1) ps

-- The container holds the addresses `ps`.
pub record IsStored (c : Container) (ps : List ℕ) : Type 0 where
  pub acl : Acl
  pub has_acl : c.acl ≡ some acl
  pub entries : Entries acl 0 ps
  pub count : c.lists_cnt ≡ length ps
  pub fits : c.lists_cnt ≤ c.max_lists
  pub room : c.max_lists ≤ acl.slots
  pub full : c.mode ≡ lc_full

Entries-frame :
    (acl acl' : Acl) (ps : List ℕ) (i : ℕ)
    → ((j : ℕ) → j < i + length ps → get_acl acl' j ≡ get_acl acl j)
    → Entries acl i ps
    → Entries acl' i ps
Entries-frame acl acl' [] i same e = tt
Entries-frame acl acl' (p ∷ ps) i same e = (
  same i (omega arith) ∙ e.0,
  Entries-frame acl acl' ps (i + 1) (λ j lt. same j (omega arith)) e.1,
)

Entries-snoc :
    (acl : Acl) (i : ℕ) (ps : List ℕ) (p : ℕ)
    → Entries acl i ps
    → get_acl acl (i + length ps) ≡ some p
    → Entries acl i (ps ++ p ∷ [])
Entries-snoc acl i [] p e last =
    let same : i + 0 ≡ i = omega arith in (ap (get_acl acl) (sym same) ∙ last, tt)
Entries-snoc acl i (q ∷ ps) p e last =
    let same : i + 1 + length ps ≡ i + suc (length ps) = omega arith in
    (e.0, Entries-snoc acl (i + 1) ps p e.1 (ap (get_acl acl) same ∙ last))

get_acl-some : (acl : Acl) (i : ℕ) → i < acl.slots → get_acl acl i ≡ some (acl.at i)
unfolding get_acl
get_acl-some acl i lt = ground arith

-- The container with room for more
abbrev stored : Container → Acl → ℕ → Container
stored c acl p = record c {
  acl = some (record acl { at = update acl.at c.lists_cnt p });
  lists_cnt = (c.lists_cnt + 1) % 2 ^ 32;
}

store_list-IsStored :
    {c : Container} {ps : List ℕ} (p : ℕ) (k : IsStored c ps)
    → c.lists_cnt < c.max_lists
    → c.lists_cnt + 1 < 2 ^ 32
    → (store_list c p ≡ some (stored c k.acl p)) × IsStored (stored c k.acl p) (ps ++ p ∷ [])
unfolding store_list
store_list-IsStored {c} {ps} p k lt few =
    let inside : c.lists_cnt < k.acl.slots = omega (arith, k.room) in
    let acl' : Acl = record k.acl { at = update k.acl.at c.lists_cnt p } in
    let last : get_acl acl' (length ps) ≡ some p =
      get_acl-some acl' (length ps) (omega (arith, k.count))
      ∙ ap (λ j. some (update k.acl.at c.lists_cnt p j)) (sym k.count)
      ∙ ap some (update_self k.acl.at c.lists_cnt p) in
    (
      rw (k.has_acl, ◌>>=◌, lt→ltb c.lists_cnt k.acl.slots inside),
      record {
        acl = acl';
        has_acl = refl;
        entries =
            Entries-snoc acl' 0 ps p
              (Entries-frame k.acl acl' ps 0
                (λ j lt'.
                  get_acl-some acl' j (omega (arith, k.count))
                  ∙ ap some (update_ne k.acl.at c.lists_cnt p {x = j} (omega (arith, k.count)))
                  ∙ sym (get_acl-some k.acl j (omega (arith, k.count))))
                k.entries)
              (ap (get_acl acl') (omega arith) ∙ last);
        count = omega (arith, k.count, length-append ps (p ∷ []));
        fits = omega arith;
        room = k.room;
        full = k.full;
      },
    )

module _ (fresh : ℕ → ℕ) where
  -- The container after `realloc` has given memory
  abbrev grown : Container → Acl → Container
  grown c acl = record c {
    max_lists = (c.max_lists + lc_mstl) % 2 ^ 32;
    acl = some (record {
      slots = (c.max_lists + lc_mstl) % 2 ^ 32;
      at = λ i. if ltb i acl.slots then acl.at i else fresh i;
    });
  }

  grown-IsStored :
      {c : Container} {ps : List ℕ} (k : IsStored c ps)
      → c.max_lists + lc_mstl < 2 ^ 32
      → IsStored (grown c k.acl) ps
  grown-IsStored {c} {ps} k few =
      let acl' : Acl = record {
        slots = (c.max_lists + lc_mstl) % 2 ^ 32;
        at = λ i. if ltb i k.acl.slots then k.acl.at i else fresh i;
      } in
      record {
        acl = acl';
        has_acl = refl;
        entries =
            Entries-frame k.acl acl' ps 0
              (λ j lt'.
                get_acl-some acl' j (omega (arith, k.count, k.fits))
                ∙ ap (λ b. some (if b then k.acl.at j else fresh j))
                    (lt→ltb j k.acl.slots (omega (arith, k.count, k.fits, k.room)))
                ∙ sym (get_acl-some k.acl j (omega (arith, k.count, k.fits, k.room))))
              k.entries;
        count = k.count;
        fits = omega (arith, k.fits);
        room = omega arith;
        full = k.full;
      }

module _ {D : Type 0} (fresh : ℕ → ℕ) where
  alloc_extra_memory-given :
      (c : Container) (acl : Acl) (h : Heap D)
      → h.avail h.stat.calls ≡ true
      → alloc_extra_memory fresh c acl h ≡ (true, grown fresh c acl, (realloc h).1)
  unfolding alloc_extra_memory realloc acl_size
  alloc_extra_memory-given c acl h e = rw e

  alloc_extra_memory-refused :
      (c : Container) (acl : Acl) (h : Heap D)
      → h.avail h.stat.calls ≡ false
      → alloc_extra_memory fresh c acl h ≡ (false, c, (realloc h).1)
  unfolding alloc_extra_memory realloc acl_size
  alloc_extra_memory-refused c acl h e = rw e

  -- From the start, given memory, `MySKLinitListsContainer` returns true and makes a container that
  -- holds no list; without memory it returns false, and then `MySKLaddtoListsContainer` does
  -- nothing.
  init_lists_container_lem :
      (h : Heap D)
      → let (made, c, h') = init_lists_container fresh start_container h in
        (made ≡ h.avail h.stat.calls)
        × (made ≡ true → IsStored c [])
        × (made ≡ false → (p : ℕ) → push_acl fresh c p h' ≡ some (c, h'))
  unfolding init_lists_container create_lists_container acl_size alloc push_acl
  init_lists_container_lem h = elim (Bool-cases (h.avail h.stat.calls)) [
    | inl given ↦ rw given (
      refl,
      λ e. record {
        acl = _;
        has_acl = refl;
        entries = tt;
        count = refl;
        fits = omega arith;
        room = omega arith;
        full = refl;
      },
      λ e. absurd (ground arith),
    )
    | inr refused ↦ rw refused (refl, λ e. absurd (ground arith), λ e p. refl)
  ]

  push_acl-into :
      (c : Container) (acl : Acl) (p : ℕ) (h : Heap D)
      → c.acl ≡ some acl
      → push_acl fresh c p h ≡ push_into fresh c acl p h
  unfolding push_acl
  push_acl-into c acl p h e =
      ap (λ o. elim o [ none ↦ some (c, h) | some acl ↦ push_into fresh c acl p h ]) e

  -- `MySKLaddtoListsContainer` on a container that holds fewer than 2 ^ 32 - 10 lists never leaves
  -- the bounds of its array. It adds the list at the end if fewer than `max_lists` lists are stored
  -- or the array can be reallocated, and otherwise the container holds the same lists as before.
  pub push_acl-IsStored :
      {c : Container} {ps : List ℕ} (p : ℕ) (h : Heap D)
      → IsStored c ps
      → length ps + lc_mstl < 2 ^ 32
      → (c' : Container) × (h' : Heap D) × (push_acl fresh c p h ≡ some (c', h'))
        × IsStored c'
            (if ltb (length ps) c.max_lists || h.avail h.stat.calls then ps ++ p ∷ [] else ps)
  unfolding push_into
  push_acl-IsStored {c} {ps} p h k few = elim (Bool-cases (ltb (length ps) c.max_lists)) [
    | inl lt ↦
        let (run, k') =
          store_list-IsStored p k (ground (arith, k.count)) (omega (arith, k.count)) in
        let small : leb c.max_lists c.lists_cnt ≡ false = ground (arith, k.count) in
        (
          stored c k.acl p,
          h,
          push_acl-into c k.acl p h k.has_acl ∙ rw (small, run, ◌>>=◌),
          rw lt k',
        )
    | inr ge ↦
        let large : leb c.max_lists c.lists_cnt ≡ true = ground (arith, k.count) in
        elim (Bool-cases (h.avail h.stat.calls)) [
          | inl given ↦
              let g = grown-IsStored fresh k (ground (arith, k.count, k.fits)) in
              let (run, k') =
                store_list-IsStored p g (ground (arith, k.count, k.fits))
                  (omega (arith, k.count)) in
              (
                stored (grown fresh c k.acl) g.acl p,
                (realloc h).1,
                push_acl-into c k.acl p h k.has_acl
                    ∙ rw (large, alloc_extra_memory-given c k.acl h given, run, ◌>>=◌),
                rw (ge, given) k',
              )
          | inr refused ↦ (
            c,
            (realloc h).1,
            push_acl-into c k.acl p h k.has_acl
                ∙ rw (large, alloc_extra_memory-refused c k.acl h refused),
            rw (ge, refused) k,
          )
        ]
  ]
