-- ===== src/Join/Intersect.antt =====
-- `intersect` and `MySKLintersect` of src/skl_join.c, for three different lists in one heap.
use myskl.Prelude.{
  ℕ, zero, suc, ◌+◌, ◌-◌, Bool, true, false, ◌&&◌, ◌||◌, Option, none, some, ◌==◌, if◌then◌else◌,
  ◌>>=◌,
}
use myskl.Heap.{Heap, load}
use myskl.SkipList.{
  Status, mem_exhausted, status_ok, error, SkipList, nd_mode, less, eq, verify_list, has_mode,
}
use myskl.Insert.{insert_plain}
use myskl.Join.{CopyFunc, is_exhausted}

module _ {D : Type 0} where
  -- `while ( --tovisit > 0 && eq ( source1, x->next[ 0 ], x ) ) x = next_node( x );`, which only
  -- runs with `tovisit` above 0
  unfoldable pub skip_equal : SkipList D → Heap D → ℕ → ℕ → Option (ℕ × ℕ)
  skip_equal l h zero x = none
  skip_equal l h (suc tovisit) x = elim (tovisit == 0) [
    | true ↦ some (x, tovisit)
    | false ↦ do
      y ← load h x 0
      same ← eq l h y x
      elim same [ true ↦ skip_equal l h tovisit y | false ↦ some (x, tovisit) ]
  ]

  -- The steps of the outer loop that do not insert: the nodes and the numbers of nodes to visit.
  unfoldable pub pass_equal : SkipList D → Heap D → ℕ → ℕ → ℕ → ℕ → ℕ → Option (ℕ × ℕ × ℕ × ℕ)
  pass_equal source1 h options x y tovisit1 tovisit2 = elim (has_mode options nd_mode) [
    | true ↦ do
      (x1, left1) ← skip_equal source1 h tovisit1 x
      (y1, left2) ← skip_equal source1 h tovisit2 y
      x2 ← load h x1 0
      y2 ← load h y1 0
      some (x2, y2, left1, left2)
    | false ↦ do x1 ← load h x 0; some (x1, y, tovisit1 - 1, tovisit2)
  ]

  -- The outer loop: whether each copy got its memory, the target, and the heap.
  unfoldable pub intersect_loop :
      SkipList D
      → CopyFunc D
      → ℕ
      → ℕ
      → SkipList D
      → Heap D
      → ℕ
      → ℕ
      → ℕ
      → ℕ
      → Option (Bool × SkipList D × Heap D)
  intersect_loop source1 cpyfunc options zero target h x y tovisit1 tovisit2 = none
  intersect_loop source1 cpyfunc options (suc fuel) target h x y tovisit1 tovisit2 =
      elim ((tovisit1 == 0) || (tovisit2 == 0)) [
        | true ↦ some (true, target, h)
        | false ↦ do
          same ← eq source1 h x y
          elim same [
            | true ↦ do
              let (node, h1) = cpyfunc h x
              (ret, target', h2) ← insert_plain target h1 node 0 options
              elim (is_exhausted ret) [
                | true ↦ some (false, target', h2)
                | false ↦ do
                  (x', y', left1, left2) ← pass_equal source1 h2 options x y tovisit1 tovisit2
                  intersect_loop source1 cpyfunc options fuel target' h2 x' y' left1 left2
              ]
            | false ↦ do
              below ← less source1 h x y
              elim below [
                | true ↦ do
                  x' ← load h x 0
                  intersect_loop source1 cpyfunc options fuel target h x' y (tovisit1 - 1) tovisit2
                | false ↦ do
                  y' ← load h y 0
                  intersect_loop source1 cpyfunc options fuel target h x y' tovisit1 (tovisit2 - 1)
              ]
          ]
      ]

  -- `intersect`, behind the tests for an empty source. Each round visits a node at least.
  unfoldable pub intersect :
      SkipList D
      → SkipList D
      → SkipList D
      → Heap D
      → CopyFunc D
      → Option (Status × SkipList D × Heap D)
  intersect source1 source2 target h cpyfunc = do
    x ← load h source1.header 0
    y ← load h source2.header 0
    elim ((x == source1.header) || (y == source2.header)) [
      | true ↦ some (status_ok, target, h)
      | false ↦ do
        let fuel = source1.nodenum + source2.nodenum + 1
        (ended, target', h') ←
            intersect_loop source1 cpyfunc nd_mode fuel target h x y source1.nodenum source2.nodenum
        some (if ended then status_ok else mem_exhausted, target', h')
    ]

  -- `MySKLintersect`: the target and the heap after it, where no list is NULL.
  unfoldable pub intersect_lists :
      SkipList D
      → SkipList D
      → SkipList D
      → Heap D
      → Option (CopyFunc D)
      → Option (Status × SkipList D × Heap D)
  intersect_lists source1 source2 target h none = some (error, target, h)
  intersect_lists source1 source2 target h (some cpyfunc) =
      if verify_list source1 && verify_list source2 && verify_list target
      then intersect source1 source2 target h cpyfunc
      else some (error, target, h)
