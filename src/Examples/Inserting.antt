-- ===== src/Examples/Inserting.antt =====
-- `MySKLinsertAD` on the small list.
use myskl.Prelude.{ℕ, ◌≡◌, refl, some, arith}
use myskl.Heap.{Heap}
use myskl.SkipList.{status_ok, SkipList}
use myskl.Insert.{insert_ad}
use myskl.Insert.Plain.{Inserted}
use myskl.Insert.Public.{insert_ad-Inserted}
use myskl.Examples.State.{
  example_heap, example_list, example_cells, example-IsSkipList, fifteen-IsFresh,
}

insert_ad-Inserted_example :
    (l' : SkipList ℕ) × (h' : Heap ℕ) × (insert_ad (some example_list) example_heap 4
      ≡ some (status_ok, some l', h'))
    × Inserted example_heap example_list example_cells 4 15 h' l'
insert_ad-Inserted_example =
    insert_ad-Inserted example-IsSkipList fifteen-IsFresh (omega arith) (omega arith) refl
