-- ===== src/Examples/Deleting.antt =====
-- The deletions from the small list.
use myskl.Prelude.{ℕ, ◌≡◌, refl, true, false, some, none, arith}
use myskl.Heap.{Heap}
use myskl.SkipList.{status_ok, key_not_found, SkipList}
use myskl.SkipList.Find.{erase_cell}
use myskl.Delete.{delete_with}
use myskl.Delete.Node.{Deleted}
use myskl.Delete.Public.{delete_with-missing, delete_with-Deleted}
use myskl.Examples.State.{
  example_heap, example_list, example_cells, example-IsSkipList, compare_numbers,
}

delete_with-Deleted_example :
    (l' : SkipList ℕ) × (h' : Heap ℕ) × (delete_with false (some example_list) example_heap 5 none
      ≡ some (status_ok, some l', h'))
    × Deleted example_heap example_list example_cells
        (erase_cell compare_numbers 10 example_cells)
        2
        h'
        l'
delete_with-Deleted_example =
    delete_with-Deleted example-IsSkipList refl 2 10 refl (omega arith) false none refl

delete_with-missing_example :
    delete_with true (some example_list) example_heap 4 none
    ≡ some (key_not_found, some example_list, example_heap)
delete_with-missing_example = delete_with-missing example-IsSkipList refl refl true none
