-- ===== src/SkipList/Guards.antt =====
-- The check in front of the public operations passes for a well-formed list, and stops for others.
use myskl.Prelude.{◌≤◌, ◌≡◌, true, Option, none, some, arith}
use myskl.Heap.{Heap}
use myskl.SkipList.{Status, SkipList, Outcome, verify_list, guarded}
use myskl.SkipList.Cells.{Cells, height_pos}
use myskl.SkipList.Invariant.{IsSkipList}

module _ {D : Type 0} where
  pub maxlevel_pos :
      {h : Heap D} {l : SkipList D} {xs : Cells D} → IsSkipList h l xs → 1 ≤ l.maxlevel
  maxlevel_pos {h} {xs} inv = omega (arith, inv.top, inv.fits, height_pos h.sz xs)

  pub verify_list-true :
      {h : Heap D} {l : SkipList D} {xs : Cells D} → IsSkipList h l xs → verify_list l ≡ true
  unfolding verify_list
  verify_list-true inv = ground (arith, inv.magic, inv.has_header, maxlevel_pos inv)

  pub guarded-some :
      {h : Heap D} {l : SkipList D} {xs : Cells D} {status : Status} {l' : SkipList D} {h' : Heap D}
      (body : SkipList D → Option (Outcome D))
      → IsSkipList h l xs
      → body l ≡ some (status, l', h')
      → guarded (some l) h body ≡ some (status, some l', h')
  unfolding guarded
  guarded-some body inv run = rw (verify_list-true inv, run)

  pub guarded-none :
      {h : Heap D} {l : SkipList D} {xs : Cells D} (body : SkipList D → Option (Outcome D))
      → IsSkipList h l xs
      → body l ≡ none
      → guarded (some l) h body ≡ none
  unfolding guarded
  guarded-none body inv run = rw (verify_list-true inv, run)
