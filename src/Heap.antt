-- ===== src/Heap.antt =====
-- The nodes of include/private/skl_priv.h at addresses, and the memory accounting of
-- src/private/skl_priv.c.
pub mod Chain
pub mod Writes
use myskl.Prelude.{ℕ, ◌+◌, Bool, true, false, ◌&&◌, Option, none, some, ltb, ◌==◌, if◌then◌else◌}

-- `struct _skl_mstat_st`, with the number of calls of `malloc` so far. The total of bytes, which
-- nothing reads, is left out.
pub record Mstat : Type 0 where
  pub calls : ℕ
  pub alloc_count : ℕ
  pub freed_count : ℕ

-- Every `MySKL_ns` by its address. The array `next` of a node has `cap` entries, none if it has
-- not been allocated or has been freed; `val` is what the user's structure around the node holds,
-- none where there is no such structure (a list's header, a node that has been destroyed).
-- `avail k` says whether call number `k` of `malloc` succeeds.
pub record Heap (D : Type 0) : Type 0 where
  pub next : ℕ → ℕ → ℕ
  pub cap : ℕ → ℕ
  pub sz : ℕ → ℕ
  pub val : ℕ → Option D
  pub avail : ℕ → Bool
  pub stat : Mstat

-- `f` with the value `b` at `a`.
unfoldable pub update {ℓ} : {A : Type ℓ} → (ℕ → A) → ℕ → A → ℕ → A
update f a b x = if x == a then b else f x

-- `f` with the value `b` at entry `i` of `a`.
unfoldable pub update_entry : (ℕ → ℕ → ℕ) → ℕ → ℕ → ℕ → ℕ → ℕ → ℕ
update_entry f a i b x j = if x == a && j == i then b else f x j

module _ {D : Type 0} where
  -- `a->next[ i ]`
  unfoldable pub load : Heap D → ℕ → ℕ → Option ℕ
  load h a i = if ltb i (h.cap a) then some (h.next a i) else none

  -- `a->next[ i ] = b`
  unfoldable pub store : Heap D → ℕ → ℕ → ℕ → Option (Heap D)
  store h a i b =
      if ltb i (h.cap a) then some (record h { next = update_entry h.next a i b }) else none

  -- `_no_db_alloc`: whether memory is given, and the counters after it.
  unfoldable pub alloc : Heap D → Bool × Heap D
  alloc h =
      let st = h.stat in
      if h.avail st.calls
      then (
        true,
        record h { stat = record st { calls = st.calls + 1; alloc_count = st.alloc_count + 1 } },
      )
      else (false, record h { stat = record st { calls = st.calls + 1 } })

  -- `_no_db_free` of the array `next` of `a`.
  unfoldable pub free_next : Heap D → ℕ → Heap D
  free_next h a =
      let st = h.stat in
      record h { cap = update h.cap a 0; stat = record st { freed_count = st.freed_count + 1 } }
