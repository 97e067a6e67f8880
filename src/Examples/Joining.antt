-- ===== src/Examples/Joining.antt =====
-- The list of State copied into, and joined with, the second list.
use myskl.Prelude.{ℕ, ◌≡◌, refl, true, false, some, ◌∷◌}
use myskl.Heap.{Heap}
use myskl.SkipList.{Status, SkipList}
use myskl.SkipList.Cells.{addrs}
use myskl.SkipList.Invariant.{IsSkipList}
use myskl.Join.{copy, join_with}
use myskl.Join.Adds.{mode_of}
use myskl.Join.Merged.{IsMerged}
use myskl.Join.Copying.{copy-IsMerged}
use myskl.Join.Joining.{join_with-IsMerged}
use myskl.Examples.State.{example_list, example_cells}
use myskl.Examples.TwoLists.{
  two_heap, two-IsSkipList, other_list, other_cells, example_copy, example_place,
  example_copy-Copies, other-IsReady,
}

copy-IsMerged_example :
    (status : Status) × (target' : SkipList ℕ) × (h' : Heap ℕ) × (copy
        (some example_list)
        (some other_list)
        two_heap
        (some example_copy)
      ≡ some (status, some target', h'))
    × IsMerged two_heap
        (1 ∷ addrs example_cells)
        example_place
        false
        example_cells
        two_heap
        other_list
        other_cells
        status
        target'
        h'
    × IsSkipList h' example_list example_cells
copy-IsMerged_example = copy-IsMerged two-IsSkipList example_copy-Copies other-IsReady

join_with-IsMerged_example :
    (status : Status) × (target' : SkipList ℕ) × (h' : Heap ℕ) × (join_with
        (mode_of true)
        (some other_list)
        (some example_list)
        two_heap
        (some example_copy)
      ≡ some (status, some target', h'))
    × IsMerged two_heap
        (1 ∷ addrs example_cells)
        example_place
        true
        example_cells
        two_heap
        other_list
        other_cells
        status
        target'
        h'
    × IsSkipList h' example_list example_cells
join_with-IsMerged_example =
    join_with-IsMerged true two-IsSkipList example_copy-Copies other-IsReady (λ e. refl)
