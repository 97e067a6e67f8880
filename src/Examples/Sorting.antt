-- ===== src/Examples/Sorting.antt =====
-- The nodes 4 and 5, with the numbers 15 and 10, are inserted into the small list and into a new one.
use myskl.Prelude.{ℕ, ◌≡◌, refl, true, false, none, some, List, [], ◌∷◌, arith, Option}
use myskl.Heap.{Heap}
use myskl.SkipList.{Status, SkipList}
use myskl.Sorting.{insert_each, IsSorted, insert_each-IsSorted}
use myskl.Sorting.Session.{make_list, memory_cleaned-session}
use myskl.Destroy.{destroy_list}
use myskl.Misc.{memory_cleaned}
use myskl.Examples.State.{
  compare_numbers, compare_numbers-IsOrder, example_heap, example_list, example_cells,
  example-IsSkipList,
}

insert_each-IsSorted_example :
    (result : List Status × Option (SkipList ℕ) × Heap ℕ) × (insert_each
        (4 ∷ 5 ∷ [])
        (some example_list)
        example_heap
      ≡ some result)
    × IsSorted example_heap example_list example_cells ((4, 15) ∷ (5, 10) ∷ []) result
insert_each-IsSorted_example =
    insert_each-IsSorted ((4, 15) ∷ (5, 10) ∷ []) example-IsSkipList
      (
        record { apart = omega arith; out = refl; holds = refl; real = omega arith },
        (record { apart = omega arith; out = refl; holds = refl; real = omega arith }, tt),
      )
      (refl, (refl, tt)) (omega arith) (λ k. refl) refl (omega arith)

-- No block has been allocated yet.
abbrev clean_heap : Heap ℕ
clean_heap = record example_heap { stat = record { calls = 0; alloc_count = 0; freed_count = 0 } }

memory_cleaned-session_example :
    (statuses : List Status) × (l : SkipList ℕ) × (h' h'' : Heap ℕ) × (make_list clean_heap 9 4
        compare_numbers
        (4 ∷ 5 ∷ [])
      ≡ some (statuses, some l, h'))
    × (memory_cleaned h' ≡ false)
    × (destroy_list (some l) h' ≡ some (none, h''))
    × (memory_cleaned h'' ≡ true)
unfolding memory_cleaned
memory_cleaned-session_example =
    memory_cleaned-session clean_heap 9 4 compare_numbers ((4, 15) ∷ (5, 10) ∷ []) (omega arith)
      (omega arith) compare_numbers-IsOrder (λ e. absurd (omega (arith, e))) (λ k. refl)
      (
        record {
          apart = λ e. absurd (omega (arith, e));
          holds = refl;
          real = λ e. absurd (omega (arith, e));
        },
        (
          record {
            apart = λ e. absurd (omega (arith, e));
            holds = refl;
            real = λ e. absurd (omega (arith, e));
          },
          tt,
        ),
      )
      (refl, (refl, tt)) (omega arith) refl
