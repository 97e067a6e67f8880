-- ===== src/Examples/Drawing.antt =====
-- The level that is drawn for the small list, and the level that is counted out for another.
use myskl.Prelude.{◌+◌, ◌/◌, ◌^◌, ◌≤◌, ◌<◌, ◌↔◌, arith, ℕ, ◌≡◌, ◌⊎◌, some, none, ◌%◌, ◌*◌}
use myskl.Rand.{rand_max_n, yield_integer32}
use myskl.Gen.{gen_level}
use myskl.Gen.Levels.{gen_level_bounds, gen_level_threshold}
use myskl.Examples.State.{example_list}
use myskl.Gen.Counting.{count_level, count_level_lem, Full}
use myskl.Heap.{update}

gen_level_bounds_example :
    (1 ≤ (gen_level example_list).0)
    × ((gen_level example_list).0 ≤ 3)
    × ((gen_level example_list).0 ≤ 2 + 1)
gen_level_bounds_example = gen_level_bounds example_list (omega arith)

gen_level_threshold_example :
    (1 < (gen_level example_list).0)
    ↔ ((1 < 3) × (1 ≤ 2) × ((yield_integer32 example_list.rng_item).0 ≤ rand_max_n / 2 ^ 1))
gen_level_threshold_example =
    gen_level_threshold example_list 1 (omega arith) (omega arith) (omega arith)

-- Every level has its share of one node.
count_level_lem_example :
    ((lev : ℕ) × (count_level 1 20 (λ k. 1) ≡ some (lev, update (λ k. 1) lev ((1 + 1) % 2 ^ 32)))
      × (1 ≤ lev)
      × (lev ≤ 20)
      × (lev < 20)
      × Full 1 (λ k. 1) 1 lev
      × ((lev ≡ 20) ⊎ (1 * 2 ^ lev < 1)))
    ⊎ ((count_level 1 20 (λ k. 1) ≡ none) × ((◌≡◌ {A = ℕ}) 20 20) × Full 1 (λ k. 1) 1 20)
count_level_lem_example = count_level_lem 1 (λ k. 1) 20 (omega arith) (omega arith) (omega arith)
