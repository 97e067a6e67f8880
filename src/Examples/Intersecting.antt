-- ===== src/Examples/Intersecting.antt =====
-- The two lists of TwoLists intersected into an empty third one, its header at address 9.
use myskl.Prelude.{ℕ, ◌==◌, ◌<◌, ◌≡◌, ◌≢◌, refl, false, some, [], ◌∷◌, ◌++◌, arith, if◌then◌else◌}
use myskl.Heap.{Heap}
use myskl.Heap.Chain.{Chain}
use myskl.SkipList.{Status, SkipList}
use myskl.SkipList.Cells.{addrs}
use myskl.SkipList.Invariant.{IsSkipList}
use myskl.SkipList.Common.{common}
use myskl.SkipList.Frame.{IsSkipList-frame, SameNode}
use myskl.Join.Intersect.{intersect_lists}
use myskl.Join.Ready.{IsReady}
use myskl.Join.Merged.{IsMerged}
use myskl.Join.Sharing.{intersect_lists-IsMerged}
use myskl.Examples.State.{example_list, example_cells, compare_numbers, compare_numbers-IsOrder}
use myskl.Examples.TwoLists.{
  two_heap, two-IsSkipList, other_list, other_cells, other-IsSkipList, example_copy, example_place,
  example_copy-Copies,
}

abbrev three_next : ℕ → ℕ → ℕ
three_next a i = if a == 9 then 9 else two_heap.next a i

abbrev three_cap : ℕ → ℕ
three_cap a = if a == 9 then 2 else two_heap.cap a

abbrev three_heap : Heap ℕ
three_heap = record two_heap { next = three_next; cap = three_cap; sz = three_cap }

abbrev empty_list : SkipList ℕ
empty_list = record other_list { nodenum = 0; header = 9; tail = 9 }

empty_chains : (i : ℕ) → i < 2 → Chain three_next 9 i 9 []
empty_chains i h = refl

empty-IsSkipList : IsSkipList three_heap empty_list []
empty-IsSkipList = record {
  order = compare_numbers-IsOrder;
  magic = refl;
  has_header = λ e. absurd (omega (arith, e));
  small = omega arith;
  top = refl;
  fits = omega arith;
  room = refl;
  apart = (refl, tt);
  nodes = tt;
  sorted = tt;
  chains = empty_chains;
  count = refl;
  last = refl;
}

three-SameNode : (a : ℕ) → a ≢ 9 → SameNode two_heap three_heap a
three-SameNode a ne = record {
  next = λ j. ground (arith, ne);
  cap = ground (arith, ne);
  sz = ground (arith, ne);
  val = refl;
}

three-IsSkipList : IsSkipList three_heap example_list example_cells
three-IsSkipList =
    IsSkipList-frame three_heap (λ a e. three-SameNode a (ground (arith, e))) two-IsSkipList

third-IsSkipList : IsSkipList three_heap other_list other_cells
third-IsSkipList =
    IsSkipList-frame three_heap (λ a e. three-SameNode a (ground (arith, e))) other-IsSkipList

empty-IsReady :
    IsReady three_heap
      ((1 ∷ addrs example_cells) ++ 7 ∷ addrs other_cells)
      example_place
      ((2, 10) ∷ [])
      three_heap
      empty_list
      []
empty-IsReady = record {
  inv = empty-IsSkipList;
  same = λ a e. record { next = λ j. refl; cap = refl; sz = refl; val = refl };
  apart = λ a e. ground (arith, e);
  spare = (record { real = omega arith; apart = omega arith; out = refl; outside = refl }, tt);
  distinct = (refl, tt);
  fits = omega arith;
}

intersect_lists-IsMerged_example :
    (status : Status) × (target' : SkipList ℕ) × (h' : Heap ℕ) × (intersect_lists example_list
        other_list empty_list three_heap
        (some example_copy)
      ≡ some (status, target', h'))
    × IsMerged three_heap
        ((1 ∷ addrs example_cells) ++ 7 ∷ addrs other_cells)
        example_place
        false
        (common compare_numbers example_cells other_cells)
        three_heap
        empty_list
        []
        status
        target'
        h'
    × IsSkipList h' example_list example_cells
    × IsSkipList h' other_list other_cells
intersect_lists-IsMerged_example =
    intersect_lists-IsMerged three-IsSkipList third-IsSkipList refl example_copy-Copies
      empty-IsReady
