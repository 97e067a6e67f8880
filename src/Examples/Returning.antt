-- ===== src/Examples/Returning.antt =====
-- An insertion into the small list, then a search or a deletion.
use myskl.Prelude.{ℕ, ◌≡◌, refl, some, none, arith}
use myskl.Heap.{Heap}
use myskl.SkipList.{SkipList, status_ok, key_found}
use myskl.SkipList.Cells.{insert_cell}
use myskl.SkipList.Invariant.{IsSkipList}
use myskl.Insert.{insert_ad}
use myskl.Search.{search_list}
use myskl.Search.Found.{IsFound}
use myskl.Delete.{delete_af}
use myskl.RoundTrip.{search_list-insert_ad, delete_af-insert_ad}
use myskl.Examples.State.{
  example_heap, example_list, example_cells, example-IsSkipList, fifteen-IsFresh, compare_numbers,
}

search_list-insert_ad_example :
    (l' : SkipList ℕ) × (h' : Heap ℕ) × (y : ℕ) × (insert_ad (some example_list) example_heap 4
      ≡ some (status_ok, some l', h'))
    × (search_list (some l') h' 4 ≡ some (key_found, some y))
    × IsFound h' l' (insert_cell compare_numbers 15 4 example_cells) 15 y
search_list-insert_ad_example =
    search_list-insert_ad example-IsSkipList fifteen-IsFresh (omega arith) (omega arith) refl refl 4
      refl

delete_af-insert_ad_example :
    (l' : SkipList ℕ) × (h' : Heap ℕ) × (l'' : SkipList ℕ) × (h'' : Heap ℕ) × (insert_ad
        (some example_list)
        example_heap
        4
      ≡ some (status_ok, some l', h'))
    × (delete_af (some l') h' 4 none ≡ some (status_ok, some l'', h''))
    × IsSkipList h'' l'' example_cells
    × (h''.cap 4 ≡ 0)
delete_af-insert_ad_example =
    delete_af-insert_ad example-IsSkipList fifteen-IsFresh (omega arith) (omega arith) refl 4 refl
      none
