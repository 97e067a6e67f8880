-- ===== src/Examples/Doubling.antt =====
-- The small list with pointers in both directions.
use myskl.Prelude.{
  ℕ, zero, suc, ◌+◌, ◌<◌, ◌≡◌, refl, true, some, List, [], ◌∷◌, arith, ◌++◌, Option,
}
use myskl.Heap.Chain.{has, Distinct}
use myskl.SkipList.{null}
use myskl.SkipList.Cells.{at}
use myskl.Double.{DoubleHeap, set_double_iterator, link_double_loop, unlink_double_loop}
use myskl.Double.Links.{Back}
use myskl.Double.Loops.{
  With, Without, Levels, SameOutside, link_double_loop-Levels, unlink_double_loop-Levels,
}
use myskl.Double.Moves.{forth, back, turns, turns-set_double_iterator}
use myskl.Examples.State.{
  example_cap, example_heap, example_list, example_cells, example-IsSkipList,
}

abbrev example_prev : ℕ → ℕ → ℕ
example_prev (suc zero) zero = 3
example_prev (suc zero) (suc zero) = 3
example_prev (suc (suc (suc zero))) zero = 2
example_prev _ _ = 1

abbrev double_heap : DoubleHeap ℕ
double_heap = record { heap = example_heap; prev = example_prev }

double_heap-Back : (i : ℕ) → i < 3 → Back example_prev 1 i 1 (at example_cap i example_cells)
double_heap-Back zero h = (refl, (refl, refl))
double_heap-Back (suc zero) h = (refl, refl)
double_heap-Back (suc (suc zero)) h = refl
double_heap-Back (suc (suc (suc i))) h = absurd (omega arith)

-- Twice forwards and three times backwards on level 1
turns-set_double_iterator_example :
    turns double_heap 1
      (forth ∷ forth ∷ back ∷ back ∷ back ∷ [])
      (set_double_iterator example_list double_heap null null)
    ≡ some (2 ∷ 3 ∷ 3 ∷ 2 ∷ 0 ∷ [])
turns-set_double_iterator_example =
    turns-set_double_iterator double_heap example-IsSkipList double_heap-Back 0 (omega arith)
      (omega arith) (forth ∷ forth ∷ back ∷ back ∷ back ∷ [])

-- The nodes in front of node 3 on its levels
abbrev in_front : ℕ → List ℕ
in_front zero = 2 ∷ []
in_front (suc j) = []

abbrev nothing : ℕ → List ℕ
nothing j = []

abbrev updates : ℕ → Option ℕ
updates zero = some 2
updates (suc j) = some 1

in_front-Distinct : (j : ℕ) → Distinct (1 ∷ in_front j ++ 3 ∷ [])
in_front-Distinct zero = (refl, (refl, (refl, tt)))
in_front-Distinct (suc j) = (refl, (refl, tt))

wide_enough : (j a : ℕ) → j < 2 → has a (1 ∷ in_front j ++ 3 ∷ []) ≡ true → j < example_cap a
wide_enough (suc (suc j)) a low e = absurd (omega arith)
wide_enough zero zero low e = absurd (ground arith)
wide_enough zero (suc zero) low e = omega arith
wide_enough zero (suc (suc zero)) low e = omega arith
wide_enough zero (suc (suc (suc zero))) low e = omega arith
wide_enough zero (suc (suc (suc (suc a)))) low e = absurd (ground arith)
wide_enough (suc zero) zero low e = absurd (ground arith)
wide_enough (suc zero) (suc zero) low e = omega arith
wide_enough (suc zero) (suc (suc zero)) low e = absurd (ground arith)
wide_enough (suc zero) (suc (suc (suc zero))) low e = omega arith
wide_enough (suc zero) (suc (suc (suc (suc a)))) low e = absurd (ground arith)

double_heap-With :
    Levels 1 3 in_front nothing updates in_front-Distinct
      (With 1 3 in_front nothing updates in_front-Distinct)
      double_heap
      0
      2
double_heap-With = (
  (
    record { behind = refl; wide = λ a e. wide_enough 0 a (omega arith) e },
    record { forth = (refl, (refl, refl)); back = (refl, (refl, refl)) },
  ),
  (
    (
      record { behind = refl; wide = λ a e. wide_enough 1 a (omega arith) e },
      record { forth = (refl, refl); back = (refl, refl) },
    ),
    tt,
  ),
)

unlink_double_loop-Levels_example :
    (d' : DoubleHeap ℕ) × (unlink_double_loop 3 updates 2 0 double_heap ≡ some d')
    × Levels 1 3 in_front nothing updates in_front-Distinct
        (Without 1 3 in_front nothing updates in_front-Distinct)
        d'
        0
        2
    × SameOutside 0 (0 + 2) double_heap d'
unlink_double_loop-Levels_example =
    unlink_double_loop-Levels 1 3 in_front nothing updates in_front-Distinct 2 2 0 double_heap
      (omega arith) double_heap-With (λ lt. absurd (omega arith))

-- Node 3 is not linked.
abbrev single_next : ℕ → ℕ → ℕ
single_next (suc zero) zero = 2
single_next _ _ = 1

abbrev single_prev : ℕ → ℕ → ℕ
single_prev (suc zero) zero = 2
single_prev _ _ = 1

abbrev single_heap : DoubleHeap ℕ
single_heap = record { heap = record example_heap { next = single_next }; prev = single_prev }

single_heap-Without :
    Levels 1 3 in_front nothing updates in_front-Distinct
      (Without 1 3 in_front nothing updates in_front-Distinct)
      single_heap
      0
      2
single_heap-Without = (
  (
    record { behind = refl; wide = λ a e. wide_enough 0 a (omega arith) e },
    record { forth = (refl, refl); back = (refl, refl) },
  ),
  (
    (
      record { behind = refl; wide = λ a e. wide_enough 1 a (omega arith) e },
      record { forth = refl; back = refl },
    ),
    tt,
  ),
)

link_double_loop-Levels_example :
    (d' : DoubleHeap ℕ) × (link_double_loop 3 updates 2 0 single_heap ≡ some d')
    × Levels 1 3 in_front nothing updates in_front-Distinct
        (With 1 3 in_front nothing updates in_front-Distinct)
        d'
        0
        2
    × SameOutside 0 (0 + 2) single_heap d'
link_double_loop-Levels_example =
    link_double_loop-Levels 1 3 in_front nothing updates in_front-Distinct 2 0 single_heap
      single_heap-Without
