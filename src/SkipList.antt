-- ===== src/SkipList.antt =====
-- `struct MySKLlist`, the status codes, and the comparisons of include/private/skl_priv.h, in the
-- library's own configuration: single links, levels drawn at random.
pub mod Cells
pub mod Invariant
pub mod Walk
pub mod Place
pub mod Frame
pub mod Guards
pub mod Descent
pub mod Find
pub mod Equal
pub mod Common
use myskl.Prelude.{
  ℕ, zero, suc, ◌+◌, Bool, true, false, not, ◌&&◌, Option, none, some, Ordering, bit_and, ◌==◌, ltb,
  if◌then◌else◌, ◌>>=◌,
}
use myskl.Heap.{Heap, load, update}
use myskl.Rand.{SklRand}

-- `MySKL_e`
pub data Status : Type 0 where
  node_not_deleted : Status
  mem_exhausted : Status
  randgen_error : Status
  duplicate_key : Status
  key_not_found : Status
  key_found : Status
  status_ok : Status
  error : Status

abbrev pub max_levels : ℕ
max_levels = 20

abbrev pub list_magic : ℕ
list_magic = 0x12345678

-- The bits of `options`.
abbrev pub ad_mode : ℕ
ad_mode = 0x01

abbrev pub nd_mode : ℕ
nd_mode = 0x02

abbrev pub up_one_mode : ℕ
up_one_mode = 0x04

abbrev pub up_all_mode : ℕ
up_all_mode = 0x10

abbrev pub cp_mode : ℕ
cp_mode = 0x20

-- `options & mode`
abbrev pub has_mode : ℕ → ℕ → Bool
has_mode options mode = not (bit_and options mode == 0)

-- `cmp` gives the sign of the C function's result; `dst` says whether a destroyer is set.
pub record SkipList (D : Type 0) : Type 0 where
  pub magic : ℕ
  pub cmp : D → D → Ordering
  pub dst : Bool
  pub rng_item : SklRand
  pub curlevel : ℕ
  pub maxlevel : ℕ
  pub nodenum : ℕ
  pub header : ℕ
  pub tail : ℕ

abbrev pub is_lt : Ordering → Bool
is_lt Ordering.lt = true
is_lt Ordering.eq = false
is_lt Ordering.gt = false

abbrev pub is_eq : Ordering → Bool
is_eq Ordering.lt = false
is_eq Ordering.eq = true
is_eq Ordering.gt = false

-- A pointer to a node that is NULL.
abbrev pub null : ℕ
null = 0

abbrev pub Outcome : Type 0 → Type 0
Outcome D = Status × SkipList D × Heap D

module _ {D : Type 0} where
  -- `less( l, a, b )`, which reads the data of both nodes
  unfoldable pub less : SkipList D → Heap D → ℕ → ℕ → Option Bool
  less l h a b = do va ← h.val a; vb ← h.val b; some (is_lt (l.cmp va vb))

  -- `eq( l, a, b )`
  unfoldable pub eq : SkipList D → Heap D → ℕ → ℕ → Option Bool
  eq l h a b = do va ← h.val a; vb ← h.val b; some (is_eq (l.cmp va vb))

  -- The checks of `verifyList` once the list is not NULL
  unfoldable pub verify_list : SkipList D → Bool
  verify_list l = l.magic == list_magic && not (l.header == null) && ltb 0 l.maxlevel

  -- `LDN_BC_X_RETV ( l, DSKIP, NSKIP, MYSKL_ERROR )` in front of the body of an operation, for a
  -- list that may be NULL.
  unfoldable pub guarded :
      Option (SkipList D)
      → Heap D
      → (SkipList D → Option (Outcome D))
      → Option (Status × Option (SkipList D) × Heap D)
  unfolding verify_list
  guarded none h body = some (error, none, h)
  guarded (some l) h body =
      if verify_list l
      then (do (status, l', h') ← body l; some (status, some l', h'))
      else some (error, some l, h)

  -- `x->next[ i ] != NIL( l ) && less( l, x->next[ i ], n )`
  unfoldable pub goes_on : SkipList D → Heap D → ℕ → ℕ → ℕ → Option Bool
  unfolding load less
  goes_on l h i x n = do y ← load h x i; if y == l.header then some false else less l h y n

  -- `while ( goes_on ) x = next_node_level( x, i );`
  unfoldable pub walk : SkipList D → Heap D → ℕ → ℕ → ℕ → ℕ → Option ℕ
  unfolding goes_on
  walk l h n i zero x = none
  walk l h n i (suc fuel) x = do
    more ← goes_on l h i x n
    elim more [ true ↦ load h x i >>= λ y. walk l h n i fuel y | false ↦ some x ]

  -- Rounds that suffice for any walk along the list.
  abbrev pub rounds : SkipList D → ℕ
  rounds l = l.nodenum + 1

  -- The loop by which `_insertI` and `deleteI` go down the levels below `i`: the node where it ends,
  -- and the array `update` (`upd`), whose entry of a level is none until it is set.
  unfoldable pub descend :
      SkipList D → Heap D → ℕ → ℕ → ℕ → (ℕ → Option ℕ) → Option (ℕ × (ℕ → Option ℕ))
  descend l h n zero x upd = some (x, upd)
  descend l h n (suc i) x upd = do
    x' ← walk l h n i (rounds l) x
    descend l h n i x' (update upd i (some x'))

  -- `( x != NIL ( l ) ) && eq ( l, x, n )`
  unfoldable pub matches : SkipList D → Heap D → ℕ → ℕ → Option Bool
  matches l h x n = if x == l.header then some false else eq l h x n
