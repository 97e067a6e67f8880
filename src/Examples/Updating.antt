-- ===== src/Examples/Updating.antt =====
-- `MySKLinsertND`, `MySKLinsertUPD` and `MySKLinsertUPD_ALL` on the small list.
use myskl.Prelude.{ℕ, ◌+◌, ◌≡◌, refl, some, none, arith}
use myskl.Heap.{Heap, update}
use myskl.SkipList.{status_ok, duplicate_key, SkipList}
use myskl.Insert.Plain.{Inserted}
use myskl.Upsert.{insert_nd, insert_upd, insert_upd_all}
use myskl.Upsert.Public.{insert_nd-Inserted, insert_nd-duplicate, insert_upd-updated}
use myskl.Upsert.Fault.{insert_upd_all-fault}
use myskl.Examples.State.{
  example_heap, example_list, example_cells, example-IsSkipList, fifteen-IsFresh,
}

abbrev sum_up : ℕ → ℕ → ℕ
sum_up old new = old + new

insert_nd-Inserted_example :
    (l' : SkipList ℕ) × (h' : Heap ℕ) × (insert_nd (some example_list) example_heap 4
      ≡ some (status_ok, some l', h'))
    × Inserted example_heap example_list example_cells 4 15 h' l'
insert_nd-Inserted_example =
    insert_nd-Inserted example-IsSkipList fifteen-IsFresh (omega arith) refl (omega arith) refl

insert_nd-duplicate_example :
    insert_nd (some example_list) example_heap 5
    ≡ some (duplicate_key, some example_list, example_heap)
insert_nd-duplicate_example = insert_nd-duplicate example-IsSkipList refl (omega arith) refl

insert_upd-updated_example :
    insert_upd (some example_list) example_heap 5 (some sum_up)
    ≡ some (
      status_ok,
      some example_list,
      record example_heap { val = update example_heap.val 2 (some 20) },
    )
insert_upd-updated_example =
    insert_upd-updated example-IsSkipList sum_up refl (omega arith) 2 10 refl

insert_upd_all-fault_example :
    insert_upd_all (some example_list) example_heap 5 (some sum_up) ≡ none
insert_upd_all-fault_example =
    insert_upd_all-fault example-IsSkipList sum_up refl (omega arith) refl 2 3 10 20 refl refl

abbrev keep_old : ℕ → ℕ → ℕ
keep_old old new = old
