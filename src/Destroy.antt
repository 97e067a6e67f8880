-- ===== src/Destroy.antt =====
-- src/skl_dst.c: every node is destroyed, then the header and the list itself.
pub mod Freed
pub mod Data
use myskl.Prelude.{ℕ, zero, suc, true, false, Option, none, some, ltb, ◌==◌, if◌then◌else◌, ◌>>=◌}
use myskl.Heap.{Heap, update, load, free_next}
use myskl.SkipList.{SkipList, verify_list, rounds}
use myskl.Init.{free_blocks}

module _ {D : Type 0} where
  -- `destroy_node` of a list whose destroyer is not NULL, when `dstdatafunc` is NULL.
  unfoldable pub destroy_each : Heap D → ℕ → Heap D
  destroy_each h n =
      let h' = if ltb 0 (h.cap n) then free_next h n else h in
      record h' { val = update h'.val n none }

  -- `while ( node != NIL ( *l ) )`
  unfoldable pub destroy_loop : SkipList D → ℕ → Heap D → ℕ → Option (Heap D)
  destroy_loop l zero h node = none
  destroy_loop l (suc fuel) h node = elim (node == l.header) [
    | true ↦ some h
    | false ↦ do save ← load h node 0; destroy_loop l fuel (destroy_each h node) save
  ]

  -- `destroy_hdr`: the header's array, the header, the generator and the list are freed.
  unfoldable pub destroy_hdr : SkipList D → Heap D → Heap D
  destroy_hdr l h =
      let h' = if ltb 0 (h.cap l.header) then free_next h l.header else h in free_blocks h' 3

  -- `MySKLdestroy`: what `*l` is then, and the heap.
  unfoldable pub destroy_list : Option (SkipList D) → Heap D → Option (Option (SkipList D) × Heap D)
  destroy_list none h = some (none, h)
  destroy_list (some l) h =
      if verify_list l
      then (if l.dst
          then (do
            node ← load h l.header 0
            h' ← destroy_loop l (rounds l) h node
            some (none, destroy_hdr l h'))
          else some (some l, h))
      else some (some l, h)

module _ {D E : Type 0} (dstdatafunc : Option (ℕ → Option D → E → E)) where
  -- `if ( dstdatafunc != NULL ) ( *dstdatafunc ) ( n );`: the function of the client takes the node and
  -- what the structure around it holds, and changes the state of the client.
  unfoldable pub destroy_data : Heap D → ℕ → E → E
  destroy_data h n e = elim dstdatafunc [ none ↦ e | some f ↦ f n (h.val n) e ]

  -- `while ( node != NIL ( *l ) )`, with the destroyer of the data
  unfoldable pub destroy_loop_data : SkipList D → ℕ → Heap D → ℕ → E → Option (Heap D × E)
  destroy_loop_data l zero h node e = none
  destroy_loop_data l (suc fuel) h node e = elim (node == l.header) [
    | true ↦ some (h, e)
    | false ↦ do
      save ← load h node 0
      destroy_loop_data l fuel (destroy_each h node) save (destroy_data h node e)
  ]

  -- `MySKLdestroy` with the destroyer of the data
  unfoldable pub destroy_list_data :
      Option (SkipList D) → Heap D → E → Option (Option (SkipList D) × Heap D × E)
  destroy_list_data none h e = some (none, h, e)
  destroy_list_data (some l) h e =
      if verify_list l
      then (if l.dst
          then (do
            node ← load h l.header 0
            (h', e') ← destroy_loop_data l (rounds l) h node e
            some (none, destroy_hdr l h', e'))
          else some (some l, h, e))
      else some (some l, h, e)
