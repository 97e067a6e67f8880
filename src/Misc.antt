-- ===== src/Misc.antt =====
-- The queries of src/skl_misc.c. Each is none where the C code would read out of bounds.
pub mod Queries
pub mod Verbose
use myskl.Prelude.{ℕ, Bool, true, Option, none, some, leb, ◌==◌, if◌then◌else◌, ◌>>=◌, ◌-◌}
use myskl.Heap.{Heap, load}
use myskl.SkipList.{SkipList, verify_list, null}

module _ {D : Type 0} where
  -- `MySKLisEmpty`
  unfoldable pub is_empty : Option (SkipList D) → Heap D → ℕ → Option Bool
  is_empty none h k = some true
  is_empty (some l) h k =
      if verify_list l
      then (if leb k l.maxlevel
          then (if k == 0
              then some (l.nodenum == 0)
              else load h l.header (k - 1) >>= λ q. some (q == l.header))
          else some true)
      else some true

  -- `MySKLgetHead`
  unfoldable pub get_head : Option (SkipList D) → Heap D → Option ℕ
  get_head none h = some null
  get_head (some l) h =
      if verify_list l
      then (do q ← load h l.header 0; some (if q == l.header then null else q))
      else some null

  -- `MySKLgetTail`
  unfoldable pub get_tail : Option (SkipList D) → ℕ
  get_tail none = null
  get_tail (some l) = if verify_list l then if l.tail == l.header then null else l.tail else null

  -- `MySKLgetMaxLevel`
  unfoldable pub get_max_level : Option (SkipList D) → ℕ
  get_max_level none = 0
  get_max_level (some l) = if verify_list l then l.maxlevel else 0

  -- `MySKLgetCurLevel`
  unfoldable pub get_cur_level : Option (SkipList D) → ℕ
  get_cur_level none = 0
  get_cur_level (some l) = if verify_list l then l.curlevel else 0

  -- `MySKLgetNodeNum`
  unfoldable pub get_node_num : Option (SkipList D) → ℕ
  get_node_num none = 0
  get_node_num (some l) = if verify_list l then l.nodenum else 0

  -- `MySKLmemoryCleaned`, without a garbage collector
  unfoldable pub memory_cleaned : Heap D → Bool
  memory_cleaned h = h.stat.alloc_count == h.stat.freed_count
