-- ===== src/Join.antt =====
-- src/skl_join.c and `MySKLcopy` of src/skl_ins.c: nodes of one list are copied into another. The
-- lists are different lists in one heap; `cpyfunc` is the client's function that makes the copy of
-- a node, and may be NULL.
pub mod Intersect
pub mod Passing
pub mod Crossing
pub mod Sharing
pub mod Adds
pub mod Ready
pub mod Merged
pub mod Copying
pub mod Joining
use myskl.Prelude.{
  ℕ, zero, suc, Bool, true, false, ◌&&◌, Option, none, some, ◌==◌, if◌then◌else◌, ◌>>=◌,
}
use myskl.Heap.{Heap, load}
use myskl.SkipList.{
  Status, mem_exhausted, duplicate_key, status_ok, error, SkipList, ad_mode, nd_mode, rounds,
  verify_list,
}
use myskl.Insert.{insert_plain}
use myskl.Upsert.{insert_i}

abbrev pub is_exhausted : Status → Bool
is_exhausted mem_exhausted = true
is_exhausted _ = false

abbrev pub is_duplicate : Status → Bool
is_duplicate duplicate_key = true
is_duplicate _ = false

-- `cpyfunc`: the new node, and the heap in which the client has made it.
abbrev pub CopyFunc : Type 0 → Type 0
CopyFunc D = Heap D → ℕ → ℕ × Heap D

module _ {D : Type 0} where
  -- `( *( target->dst ) )( node )`, a fault if there is no destroyer
  unfoldable pub destroy_copy : SkipList D → Heap D → ℕ → Option (Heap D)
  destroy_copy target h node =
      if target.dst
      then some (record h { val = λ a. if a == node then none else h.val a })
      else none

  -- The `do … while` loop of `join`, from node `x` of `source` on: whether it has come to the end,
  -- the target, and the heap.
  unfoldable pub join_loop :
      SkipList D
      → ℕ
      → CopyFunc D
      → ℕ
      → SkipList D
      → Heap D
      → ℕ
      → Option (Bool × SkipList D × Heap D)
  join_loop source options cpyfunc zero target h x = none
  join_loop source options cpyfunc (suc fuel) target h x = do
    let (node, h1) = cpyfunc h x
    (ret, target', h2) ← insert_i target h1 node (λ old new. old) 0 options
    elim (is_exhausted ret) [
      | true ↦ some (false, target', h2)
      | false ↦ do
        h3 ← (if is_duplicate ret then destroy_copy target' h2 node else some h2)
        x' ← load h3 x 0
        elim (x' == source.header) [
          | true ↦ some (true, target', h3)
          | false ↦ join_loop source options cpyfunc fuel target' h3 x'
        ]
    ]

  -- `join` behind the test of `MySKLjoinAD` and `MySKLjoinND` for an empty source.
  unfoldable pub join :
      ℕ → SkipList D → SkipList D → Heap D → CopyFunc D → Option (Status × SkipList D × Heap D)
  join options target source h cpyfunc = do
    x ← load h source.header 0
    elim (x == source.header) [
      | true ↦ some (status_ok, target, h)
      | false ↦ do
        (ended, target', h') ← join_loop source options cpyfunc (rounds source) target h x
        some (if ended then status_ok else mem_exhausted, target', h')
    ]

  -- The body of `MySKLjoinAD` and `MySKLjoinND`, which differ in the mode.
  unfoldable pub join_with :
      ℕ
      → Option (SkipList D)
      → Option (SkipList D)
      → Heap D
      → Option (CopyFunc D)
      → Option (Status × Option (SkipList D) × Heap D)
  join_with options none source h cpyfunc = some (error, none, h)
  join_with options (some target) none h cpyfunc = some (error, some target, h)
  join_with options (some target) (some source) h none = some (error, some target, h)
  join_with options (some target) (some source) h (some cpyfunc) =
      if verify_list target && verify_list source
      then (do
        (status, target', h') ← join options target source h cpyfunc
        some (status, some target', h'))
      else some (error, some target, h)

  abbrev pub join_ad :
      Option (SkipList D)
      → Option (SkipList D)
      → Heap D
      → Option (CopyFunc D)
      → Option (Status × Option (SkipList D) × Heap D)
  join_ad = join_with ad_mode

  abbrev pub join_nd :
      Option (SkipList D)
      → Option (SkipList D)
      → Heap D
      → Option (CopyFunc D)
      → Option (Status × Option (SkipList D) × Heap D)
  join_nd = join_with nd_mode

  -- `while ( x != NIL ( source ) )` of `MySKLcopy`, from node `x` on
  unfoldable pub copy_loop :
      SkipList D → CopyFunc D → ℕ → SkipList D → Heap D → ℕ → Option (Status × SkipList D × Heap D)
  copy_loop source cpyfunc zero target h x = none
  copy_loop source cpyfunc (suc fuel) target h x = elim (x == source.header) [
    | true ↦ some (status_ok, target, h)
    | false ↦ do
      let (node, h1) = cpyfunc h x
      (ret, target', h2) ← insert_plain target h1 node (h1.sz x) ad_mode
      elim (is_exhausted ret) [
        | true ↦ some (ret, target', h2)
        | false ↦ load h2 x 0 >>= λ x'. copy_loop source cpyfunc fuel target' h2 x'
      ]
  ]

  -- `MySKLcopy`
  unfoldable pub copy :
      Option (SkipList D)
      → Option (SkipList D)
      → Heap D
      → Option (CopyFunc D)
      → Option (Status × Option (SkipList D) × Heap D)
  copy none target h cpyfunc = some (error, target, h)
  copy (some source) none h cpyfunc = some (error, none, h)
  copy (some source) (some target) h none = some (error, some target, h)
  copy (some source) (some target) h (some cpyfunc) =
      if verify_list source && verify_list target
      then (do
        x ← load h source.header 0
        (status, target', h') ← copy_loop source cpyfunc (rounds source) target h x
        some (status, some target', h'))
      else some (error, some target, h)
