-- ===== src/Container.antt =====
-- src/skl_lc.c: the container of the created lists. A list is known by its address, and the store
-- tells what list stands at an address; without threads there is no mutex.
pub mod Stored
pub mod Emptied
use myskl.Prelude.{
  ℕ, zero, suc, ◌+◌, ◌^◌, ◌%◌, Bool, true, false, Option, none, some, leb, ltb, ◌==◌, if◌then◌else◌,
  ◌>>=◌,
}
use myskl.Heap.{Heap, update, alloc}
use myskl.SkipList.{SkipList, null}
use myskl.Init.{free_blocks}
use myskl.Destroy.{destroy_list}

-- `LC_MSTL`
abbrev pub lc_mstl : ℕ
lc_mstl = 10

-- `LC_NONE`, `LC_FULL`
abbrev pub lc_none : ℕ
lc_none = 0

abbrev pub lc_full : ℕ
lc_full = 1

-- An array of `slots` addresses of lists
pub record Acl : Type 0 where
  pub slots : ℕ
  pub at : ℕ → ℕ

-- `MySKL_cs`; `acl` is none for NULL, and the numbers are integers of 32 bits without a sign.
pub record Container : Type 0 where
  pub acl : Option Acl
  pub max_lists : ℕ
  pub lists_cnt : ℕ
  pub mode : ℕ

-- `lc`, as it is set at the start
abbrev pub start_container : Container
start_container = record { acl = none; max_lists = lc_mstl; lists_cnt = 0; mode = lc_none }

-- The lists by their addresses, none where there is no list, and the heap of their nodes
pub record World (D : Type 0) : Type 0 where
  pub lists : ℕ → Option (SkipList D)
  pub heap : Heap D

-- `aclsize`, in addresses
unfoldable pub acl_size : Container → ℕ
acl_size c = (c.max_lists + lc_mstl) % 2 ^ 32

-- `acl[ i ]`
unfoldable pub get_acl : Acl → ℕ → Option ℕ
get_acl acl i = if ltb i acl.slots then some (acl.at i) else none

-- `lc.acl[ lc.lists_cnt++ ] = l`
unfoldable pub store_list : Container → ℕ → Option Container
store_list c p = do
  acl ← c.acl
  if ltb c.lists_cnt acl.slots
      then some (record c {
        acl = some (record acl { at = update acl.at c.lists_cnt p });
        lists_cnt = (c.lists_cnt + 1) % 2 ^ 32;
      })
      else none

module _ {D : Type 0} where
  -- `realloc`, which is counted neither as allocated nor as freed
  unfoldable pub realloc : Heap D → Bool × Heap D
  realloc h = (h.avail h.stat.calls, record h { stat = record h.stat { calls = h.stat.calls + 1 } })

  -- `MySKLdestroy ( a + i, NULL )`, when the entry holds the address `p`
  unfoldable pub destroy_at : World D → ℕ → Option (World D)
  destroy_at w p = if p == null then some w else (do
    l ← w.lists p
    (l', h') ← destroy_list (some l) w.heap
    some (record { lists = update w.lists p l'; heap = h' }))

  -- The loop of `destroyAoCL` from entry `i`, with `rest` entries to go
  unfoldable pub destroy_acl_loop : Acl → ℕ → ℕ → World D → Option (World D)
  destroy_acl_loop acl i zero w = some w
  destroy_acl_loop acl i (suc rest) w = do
    p ← get_acl acl i
    w' ← destroy_at w p
    destroy_acl_loop acl (i + 1) rest w'

  -- `destroyAoCL` of the array `acl`
  unfoldable pub destroy_acl : Acl → ℕ → World D → Option (World D)
  destroy_acl acl lists_cnt w = do
    w' ← destroy_acl_loop acl 0 lists_cnt w
    some (record w' { heap = free_blocks w'.heap 1 })

  -- `allocExtraMemory` of the array `acl`: whether memory is given; the addresses behind the old
  -- ones are what `fresh` tells.
  unfoldable pub alloc_extra_memory : (ℕ → ℕ) → Container → Acl → Heap D → Bool × Container × Heap D
  alloc_extra_memory fresh c acl h =
      let arrdim = acl_size c in
      let (given, h') = realloc h in
      if given
      then (
        true,
        record c {
          max_lists = (c.max_lists + lc_mstl) % 2 ^ 32;
          acl =
              some (record {
                slots = arrdim;
                at = λ i. if ltb i acl.slots then acl.at i else fresh i;
              });
        },
        h',
      )
      else (false, c, h')

  -- `_createListsContainer`
  unfoldable pub create_lists_container :
      (ℕ → ℕ) → ℕ → Container → Heap D → Bool × Container × Heap D
  create_lists_container fresh mode c h =
      let c1 = record c { mode = mode } in
      if mode == lc_full
      then (let (given, h') = alloc h in
          if given
          then (true, record c1 { acl = some (record { slots = acl_size c1; at = fresh }) }, h')
          else (false, record c1 { acl = none }, h'))
      else (true, c1, h)

  -- `_destroyListsContainer`
  unfoldable pub destroy_lists_container : Container → World D → Option (Container × World D)
  destroy_lists_container c w = elim c.acl [
    | none ↦ some (start_container, w)
    | some acl ↦ do w' ← destroy_acl acl c.lists_cnt w; some (start_container, w')
  ]

  -- `_containerPushAcl` once the array exists
  unfoldable pub push_into : (ℕ → ℕ) → Container → Acl → ℕ → Heap D → Option (Container × Heap D)
  push_into fresh c acl p h =
      if leb c.max_lists c.lists_cnt
      then (let (given, c', h') = alloc_extra_memory fresh c acl h in
          if given then (do c'' ← store_list c' p; some (c'', h')) else some (c', h'))
      else (do c' ← store_list c p; some (c', h))

  -- `_containerPushAcl`, `MySKLaddtoListsContainer`
  unfoldable pub push_acl : (ℕ → ℕ) → Container → ℕ → Heap D → Option (Container × Heap D)
  push_acl fresh c p h = elim c.acl [ none ↦ some (c, h) | some acl ↦ push_into fresh c acl p h ]

  -- `MySKLfreeListsContainer`
  unfoldable pub free_lists_container : Container → World D → Option (Container × World D)
  free_lists_container c w = if c.mode == lc_none then some (c, w) else destroy_lists_container c w

  -- `MySKLinitListsContainer`
  unfoldable pub init_lists_container : (ℕ → ℕ) → Container → Heap D → Bool × Container × Heap D
  init_lists_container fresh c h = create_lists_container fresh lc_full c h
