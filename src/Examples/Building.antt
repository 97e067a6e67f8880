-- ===== src/Examples/Building.antt =====
-- A list is made and destroyed.
use myskl.SkipList.Frame.{SameNode}
use myskl.Prelude.{
  ℕ, ◌+◌, ◌≡◌, refl, true, false, some, none, [], arith, length, ◌∷◌, Option, List, ◌>>=◌,
}
use myskl.Heap.{Heap}
use myskl.Heap.Chain.{has}
use myskl.SkipList.{status_ok}
use myskl.SkipList.Cells.{addrs}
use myskl.SkipList.Invariant.{IsSkipList}
use myskl.Init.{new_list, init_list}
use myskl.Init.Empty.{init_list-IsSkipList}
use myskl.Destroy.{destroy_list, destroy_list_data}
use myskl.Destroy.Freed.{destroy_list-Freed}
use myskl.Examples.State.{
  example_heap, example_list, example_cells, example-IsSkipList, compare_numbers,
  compare_numbers-IsOrder,
}
use myskl.Destroy.Data.{destroy_list_data-each_data}

init_list-IsSkipList_example :
    (h' : Heap ℕ) × (init_list example_heap 9 4 (some compare_numbers) true
      ≡ some (status_ok, some (new_list 9 4 compare_numbers true), h'))
    × IsSkipList h' (new_list 9 4 compare_numbers true) []
    × (h'.stat.alloc_count ≡ 6 + 4)
    × (h'.stat.freed_count ≡ 0)
init_list-IsSkipList_example =
    init_list-IsSkipList example_heap 9 4 compare_numbers true (omega arith) (omega arith)
      compare_numbers-IsOrder (λ e. absurd (omega (arith, e))) (λ k lt. refl)

destroy_list-Freed_example :
    (h' : Heap ℕ) × (destroy_list (some example_list) example_heap ≡ some (none, h'))
    × ((a : ℕ) → has a (addrs example_cells) ≡ true → (h'.cap a ≡ 0) × (h'.val a ≡ none))
    × (h'.cap 1 ≡ 0)
    × ((a : ℕ) → has a (1 ∷ addrs example_cells) ≡ false → SameNode example_heap h' a)
    × (h'.stat.alloc_count ≡ 6)
    × (h'.stat.freed_count ≡ 0 + length example_cells + 4)
destroy_list-Freed_example = destroy_list-Freed example-IsSkipList refl

-- The client notes the nodes that it is given.
abbrev note_node : ℕ → Option ℕ → List ℕ → List ℕ
note_node n v ns = n ∷ ns

destroy_list_data-each_data_example :
    destroy_list_data (some note_node) (some example_list) example_heap []
    ≡ (destroy_list (some example_list) example_heap >>= λ r. some (r.0, r.1, 3 ∷ 2 ∷ []))
destroy_list_data-each_data_example =
    destroy_list_data-each_data example-IsSkipList (some note_node) [] refl
