-- ===== src/Insert/Plain.antt =====
-- `_insertPlain` of src/skl_ins.c as a whole.
use myskl.Prelude.{
  ℕ, ◌+◌, ◌%◌, ◌^◌, ◌≤◌, ◌<◌, ◌≡◌, ◌≢◌, refl, ap, ◌∙◌, true, false, some, arith, ltb, ◌==◌,
  if◌then◌else◌, ◌>>=◌, Bool-cases, inl, inr, length, max, ne→==, ◌∷◌,
}
use myskl.Heap.{Heap, update}
use myskl.Heap.Chain.{has}
use myskl.Heap.Writes.{load-some, update_self, update_ne}
use myskl.SkipList.{SkipList, status_ok, mem_exhausted, has_mode, cp_mode}
use myskl.SkipList.Cells.{Cells, addrs, insert_cell, height_pos}
use myskl.SkipList.Invariant.{IsSkipList}
use myskl.SkipList.Place.{IsSkipList-Walkable, Walkable-raise, pred_at-ne, header-last_or}
use myskl.SkipList.Frame.{SameNode, IsIn, IsSkipList-frame, IsSkipList-rng_item}
use myskl.Gen.{gen_level}
use myskl.Gen.Levels.{gen_level_bounds}
use myskl.Insert.{raise, level_for, plain_loop, count_in, insert_plain}
use myskl.Insert.Nodes.{counted, prepared, starved, new_node-prepared, new_node-starved}
use myskl.Insert.Links.{plain_loop-Linked}
use myskl.Insert.Inserted.{IsNew, IsNew-IsSkipList}

module _ {D : Type 0} where
  -- A node of the client's that is in no way part of the list yet.
  pub record IsFresh (h : Heap D) (l : SkipList D) (xs : Cells D) (x : ℕ) (d : D) : Type 0 where
    pub apart : x ≢ l.header
    pub out : has x (addrs xs) ≡ false
    pub holds : h.val x ≡ some d

  -- The list `l'` in `h'` is `l` in `h` with node `x` in its place: the invariant holds, one array
  -- has been allocated, and no node outside the list is touched.
  pub record Inserted (h : Heap D) (l : SkipList D) (xs : Cells D) (x : ℕ) (d : D) (h' : Heap D)
      (l' : SkipList D) : Type 0 where
    pub kept : IsSkipList h' l' (insert_cell l.cmp d x xs)
    pub level : h'.sz x ≡ (gen_level l).0
    pub others : (a : ℕ) → has a (l.header ∷ addrs xs) ≡ false → a ≢ x → SameNode h h' a
    pub vals : (a : ℕ) → h'.val a ≡ h.val a
    pub sizes : (a : ℕ) → a ≢ x → h'.sz a ≡ h.sz a
    pub stat : h'.stat ≡ counted h.stat
    pub avail : h'.avail ≡ h.avail
    pub same_cmp : l'.cmp ≡ l.cmp
    pub same_header : l'.header ≡ l.header
    pub same_dst : l'.dst ≡ l.dst

  pub level_for-gen_level :
      (l : SkipList D) (given options : ℕ)
      → has_mode options cp_mode ≡ false
      → level_for l given options ≡ gen_level l
  unfolding level_for
  level_for-gen_level l given options drawn = rw drawn

  pub raise-max :
      (l : SkipList D) (lev : ℕ) → raise l lev ≡ record l { curlevel = max l.curlevel lev }
  unfolding raise
  raise-max l lev = elim (Bool-cases (ltb l.curlevel lev)) [
    | inl up ↦ rw up (ap (λ c. record l { curlevel = c }) (ground arith))
    | inr no_up ↦ rw no_up (ap (λ c. record l { curlevel = c }) (ground arith))
  ]

  pub count_in_lem :
      (l : SkipList D) (h : Heap D) (x : ℕ)
      → 0 < h.cap x
      → count_in l h x
        ≡ some (
          status_ok,
          record l {
            tail = if h.next x 0 == l.header then x else l.tail;
            nodenum = (l.nodenum + 1) % 2 ^ 32;
          },
          h,
        )
  unfolding count_in
  count_in_lem l h x w = rw (load-some h x 0 w, ◌>>=◌)

  module _ {h : Heap D} {l : SkipList D} {xs : Cells D} {x : ℕ} {d : D} (inv : IsSkipList h l xs)
      (fresh : IsFresh h l xs x d) where
    pub other_ne : (a : ℕ) → IsIn a l xs → a ≢ x
    other_ne a e = ground (arith, fresh.apart, fresh.out)

    pub prepared-IsSkipList :
        (lev : ℕ) (f : ℕ → ℕ → ℕ)
        → ((a j : ℕ) → a ≢ x → f a j ≡ h.next a j)
        → IsSkipList (prepared h x lev f) l xs
    prepared-IsSkipList lev f same =
        IsSkipList-frame (prepared h x lev f)
          (λ a e. record {
            next = λ j. same a j (other_ne a e);
            cap =
                update_ne (update h.cap x 0) x lev (other_ne a e)
                ∙ update_ne h.cap x 0 (other_ne a e);
            sz = update_ne h.sz x lev (other_ne a e);
            val = refl;
          })
          inv

    pub starved-IsSkipList : IsSkipList (starved h x) (gen_level l).1 xs
    unfolding gen_level
    starved-IsSkipList = IsSkipList-rng_item (gen_level l).1.rng_item (
        IsSkipList-frame (starved h x)
          (λ a e. record {
            next = λ j. refl;
            cap = update_ne h.cap x 0 (other_ne a e);
            sz = refl;
            val = refl;
          })
          inv)

    -- After the level is drawn and the node prepared: the rest of `_insertPlain`.
    linked_in :
        (lev : ℕ)
        → 1 ≤ lev
        → lev ≤ l.maxlevel
        → h.cap x ≡ lev
        → h.sz x ≡ lev
        → length xs + 1 < 2 ^ 32
        → let l2 : SkipList D = record l { curlevel = max l.curlevel lev } in
          (f : ℕ → ℕ → ℕ) × (l' : SkipList D) × (plain_loop l2 x lev l2.curlevel l2.header h
            ≡ some (record h { next = f }))
          × (count_in l2 (record h { next = f }) x ≡ some (status_ok, l', record h { next = f }))
          × IsSkipList (record h { next = f }) l' (insert_cell l.cmp d x xs)
          × ((a j : ℕ) → has a (l.header ∷ addrs xs) ≡ false → a ≢ x → f a j ≡ h.next a j)
          × (l'.cmp ≡ l.cmp)
          × (l'.header ≡ l.header)
          × (l'.dst ≡ l.dst)
    linked_in lev pos low full sized fits =
        let l2 : SkipList D = record l { curlevel = max l.curlevel lev } in
        let w = IsSkipList-Walkable inv fresh.holds in
        let (f, run, eq) =
          plain_loop-Linked l2 xs x lev d fresh.apart fresh.out l2.curlevel h
            (Walkable-raise l2.curlevel l2.curlevel w (omega (arith, inv.fits))) (omega arith)
            l.header (header-last_or inv d l2.curlevel (omega arith)) in
        let new : IsNew inv x lev d = record {
          apart = fresh.apart;
          out = fresh.out;
          holds = fresh.holds;
          full = full;
          sized = sized;
          pos = pos;
          low = low;
          fits = fits;
        } in
        (
          f,
          _,
          run,
          count_in_lem l2 (record h { next = f }) x (omega arith),
          IsNew-IsSkipList inv x lev d new f l2.curlevel (omega arith) eq,
          λ a j out ne. ground (arith, eq j a, pred_at-ne w a (ground arith) (ground arith) j),
          refl,
          refl,
          refl,
        )

  module _ {h : Heap D} {l : SkipList D} {xs : Cells D} {x : ℕ} {d : D} (inv : IsSkipList h l xs)
      (fresh : IsFresh h l xs x d) (given options : ℕ)
      (drawn : has_mode options cp_mode ≡ false) where
    -- If memory is given, `_insertPlain` inserts the node in front of the first that is not less,
    -- and reports success.
    pub insert_plain-Inserted :
        length xs + 1 < 2 ^ 32
        → h.avail h.stat.calls ≡ true
        → (l' : SkipList D) × (h' : Heap D) × (insert_plain l h x given options
            ≡ some (status_ok, l', h'))
          × Inserted h l xs x d h' l'
    unfolding insert_plain gen_level
    insert_plain-Inserted fits room =
        let l1 = (gen_level l).1 in
        let lev = (gen_level l).0 in
        let (lev_pos, lev_max, _) =
          gen_level_bounds l (omega (arith, inv.top, inv.fits, height_pos h.sz xs)) in
        let (f0, made, others, _) = new_node-prepared l1 h x lev lev_pos room in
        let h1 = prepared h x lev f0 in
        let inv1 = IsSkipList-rng_item l1.rng_item (prepared-IsSkipList inv fresh lev f0 others) in
        let (f, l', run, done, kept, far, e_cmp, e_header, e_dst) =
          linked_in {h = h1} {l = l1} inv1
            (record { apart = fresh.apart; out = fresh.out; holds = fresh.holds }) lev lev_pos
            lev_max (update_self (update h.cap x 0) x lev) (update_self h.sz x lev) fits in
        (
          l',
          record h1 { next = f },
          rw
              (
                level_for-gen_level l given options drawn,
                drawn,
                ne→== lev 0 (omega arith),
                made,
                ◌>>=◌,
                level_for-gen_level l given options drawn,
                raise-max l1 lev,
                run,
                ◌>>=◌,
              )
              done,
          record {
            kept = kept;
            level = update_self h.sz x lev;
            others = λ a out ne. record {
              next = λ j. far a j out ne ∙ others a j ne;
              cap = update_ne (update h.cap x 0) x lev ne ∙ update_ne h.cap x 0 ne;
              sz = update_ne h.sz x lev ne;
              val = refl;
            };
            vals = λ a. refl;
            sizes = λ a ne. update_ne h.sz x lev ne;
            stat = refl;
            avail = refl;
            same_cmp = e_cmp;
            same_header = e_header;
            same_dst = e_dst;
          },
        )

    -- If memory is refused, it reports that; the list stands for the same cells, and no node but
    -- the new one, which is left without an array, is touched.
    pub insert_plain-starved :
        h.avail h.stat.calls ≡ false
        → let l1 : SkipList D = (gen_level l).1 in
          (insert_plain l h x given options ≡ some (mem_exhausted, l1, starved h x))
          × IsSkipList (starved h x) l1 xs
    unfolding insert_plain gen_level
    insert_plain-starved no_room =
        let l1 = (gen_level l).1 in
        let lev = (gen_level l).0 in
        let (lev_pos, _, _) =
          gen_level_bounds l (omega (arith, inv.top, inv.fits, height_pos h.sz xs)) in
        (
          rw (
            level_for-gen_level l given options drawn,
            drawn,
            ne→== lev 0 (omega arith),
            new_node-starved l1 h x lev lev_pos no_room,
            ◌>>=◌,
            level_for-gen_level l given options drawn,
          ),
          starved-IsSkipList inv fresh,
        )
