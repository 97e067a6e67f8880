-- ===== src/Insert/Public.antt =====
-- `MySKLinsertAD` of src/skl_ins.c.
use myskl.Prelude.{
  ℕ, ◌+◌, ◌<◌, ◌^◌, ◌≡◌, ◌≢◌, refl, true, false, some, none, arith, length, ne→==, Option, ◌⊎◌,
}
use myskl.Heap.{Heap}
use myskl.SkipList.{status_ok, mem_exhausted, error, SkipList, null, ad_mode, verify_list, guarded}
use myskl.SkipList.Cells.{Cells}
use myskl.SkipList.Guards.{guarded-some}
use myskl.SkipList.Invariant.{IsSkipList}
use myskl.Gen.{gen_level}
use myskl.Insert.{insert_ad}
use myskl.Insert.Nodes.{starved}
use myskl.Insert.Plain.{IsFresh, Inserted, insert_plain-Inserted, insert_plain-starved}

module _ {D : Type 0} {h : Heap D} {l : SkipList D} {xs : Cells D} {x : ℕ} {d : D} where
  -- On a well-formed list that stays below 2 ^ 32 nodes, given memory, `MySKLinsertAD` of a node that
  -- is not in the list and not NULL ends without an access out of bounds and reports success. The list is then well formed and
  -- holds the old cells in their order, with the new node in front of the first that is not less;
  -- the node has as many levels as `genLevel` drew, one array has been allocated, no data has
  -- changed, and no node that is neither the new one nor in the list is touched.
  pub insert_ad-Inserted :
      IsSkipList h l xs
      → IsFresh h l xs x d
      → x ≢ null
      → length xs + 1 < 2 ^ 32
      → h.avail h.stat.calls ≡ true
      → (l' : SkipList D) × (h' : Heap D) × (insert_ad (some l) h x ≡ some (status_ok, some l', h'))
        × Inserted h l xs x d h' l'
  unfolding insert_ad
  insert_ad-Inserted inv fresh ne fits room =
      let (l', h', run, ins) = insert_plain-Inserted inv fresh 0 ad_mode refl fits room in
      (l', h', guarded-some _ inv (rw (ne→== x null ne) run), ins)

  -- On a well-formed list, with no memory left, `MySKLinsertAD` of a node that is not in the
  -- list and not NULL reports MYSKL_MEM_EXHAUSTED; the list, whose generator has moved on, is
  -- well formed and holds the same cells, and the new node is left without an array.
  insert_ad-starved :
      IsSkipList h l xs
      → IsFresh h l xs x d
      → x ≢ null
      → h.avail h.stat.calls ≡ false
      → (insert_ad (some l) h x ≡ some (mem_exhausted, some (gen_level l).1, starved h x))
        × IsSkipList (starved h x) (gen_level l).1 xs
  unfolding insert_ad
  insert_ad-starved inv fresh ne no_room =
      let (run, kept) = insert_plain-starved inv fresh 0 ad_mode refl no_room in
      (guarded-some _ inv (rw (ne→== x null ne) run), kept)

-- Where `MySKLinsertAD` does not pass its checks (the list is NULL, has another magic number or no
-- level, or the node is NULL), it reports MYSKL_ERROR and changes neither the list nor the heap.
insert_ad-error :
    {D : Type 0} (h : Heap D) (ml : Option (SkipList D)) (x : ℕ)
    → (ml ≡ none) ⊎ ((l : SkipList D) × (ml ≡ some l) × (verify_list l ≡ false)) ⊎ (x ≡ null)
    → insert_ad ml h x ≡ some (error, ml, h)
unfolding insert_ad guarded
insert_ad-error h none x bad = refl
insert_ad-error h (some l) x bad = ground arith
