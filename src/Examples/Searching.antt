-- ===== src/Examples/Searching.antt =====
-- The searches and the queries on the small list.
use myskl.Prelude.{ℕ, ◌+◌, ◌≡◌, refl, some, length}
use myskl.SkipList.{key_found, key_not_found, null}
use myskl.SkipList.Cells.{addrs}
use myskl.Search.{search_list}
use myskl.Search.Found.{IsFound, search_list-IsFound, search_list-missing}
use myskl.Iter.{Iter, search_list_all}
use myskl.Iter.Traverse.{traverse}
use myskl.Examples.State.{
  example_heap, example_list, example_cells, example-IsSkipList, compare_numbers,
}
use myskl.Iter.SearchAll.{search_list_all-equal_cells}
use myskl.Init.Empty.{given_block}
use myskl.SkipList.Equal.{equal_cells}
use myskl.SkipList.Invariant.{IsSkipList}

search_list-IsFound_example :
    (y : ℕ) × (search_list (some example_list) example_heap 5 ≡ some (key_found, some y))
    × IsFound example_heap example_list example_cells 10 y
search_list-IsFound_example = search_list-IsFound example-IsSkipList refl refl refl

search_list-missing_example :
    search_list (some example_list) example_heap 4 ≡ some (key_not_found, some null)
search_list-missing_example = search_list-missing example-IsSkipList refl refl

search_list_all-equal_cells_example :
    (iter : Iter) × (search_list_all (some example_list) example_heap 5
      ≡ some (key_found, some iter, given_block example_heap))
    × (traverse (given_block example_heap) (length example_cells + 1) iter
        ≡ some (addrs (equal_cells compare_numbers 10 example_cells)))
    × IsSkipList (given_block example_heap) example_list example_cells
search_list_all-equal_cells_example = search_list_all-equal_cells example-IsSkipList refl refl refl
