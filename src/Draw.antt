-- ===== src/Draw.antt =====
-- src/skl_draw.c: the drawing of a list and the listing of its nodes, as what they print.
pub mod Steps
pub mod Rows
pub mod Picture
pub mod Widths
pub mod Listing
use myskl.Prelude.{
  ℕ, zero, suc, ◌+◌, Bool, Option, none, some, List, [], ◌∷◌, ◌++◌, ◌==◌, if◌then◌else◌, ◌>>=◌, not,
}
use myskl.Heap.{Heap, load}
use myskl.SkipList.{SkipList, null, rounds, verify_list}
use myskl.Iter.{Iter, get_next, set_iterator}

-- What a call of `fprintf` prints, and the output of the handler `printData` for a node.
pub data Piece : Type 0 where
  level_label : ℕ → Piece
  no_nodes link dash arrow newline : Piece
  datum : ℕ → Piece

-- What `printListInfo` prints: of the list, the number of its nodes, its NIL and its levels; of a
-- node, its number, its address, its levels and its pointers with their indices.
pub data Info : Type 0 where
  list_info : ℕ → ℕ → ℕ → Info
  node_info : ℕ → ℕ → ℕ → List (ℕ × ℕ) → Info

-- `for ( ; i > 0; i-- )`
unfoldable pub dashes : ℕ → List Piece
dashes zero = []
dashes (suc i) = dash ∷ dashes i

module _ {D : Type 0} where
  -- `malloc`, whose blocks the library does not count
  unfoldable pub malloc : Heap D → Bool × Heap D
  malloc h =
      let st = h.stat in (h.avail st.calls, record h { stat = record st { calls = st.calls + 1 } })

  module _ (h : Heap D) where
    -- The pointers of node `a` from index `i` on, `n` of them.
    unfoldable pub node_links : ℕ → ℕ → ℕ → Option (List (ℕ × ℕ))
    node_links a zero i = some []
    node_links a (suc n) i = do b ← load h a i; rest ← node_links a n (i + 1); some ((i, b) ∷ rest)

    -- The loop of `printListInfo` from `node` on, behind `cnt` nodes.
    unfoldable pub info_loop : SkipList D → ℕ → ℕ → ℕ → Option (List Info)
    info_loop l zero node cnt = none
    info_loop l (suc fuel) node cnt = if node == l.header then some [] else (do
      links ← node_links node (h.sz node) 0
      next ← load h node 0
      rest ← info_loop l fuel next (cnt + 1)
      some (node_info (cnt + 1) node (h.sz node) links ∷ rest))

    -- `printListInfo`
    unfoldable pub print_list_info : SkipList D → Option (List Info)
    print_list_info l = do
      first ← load h l.header 0
      nodes ← info_loop l (rounds l) first 0
      some (list_info l.nodenum l.header l.maxlevel ∷ nodes)

    -- `MySKLdisplayListStruct`
    unfoldable pub display_list_struct : Option (SkipList D) → Option (List Info)
    display_list_struct none = some []
    display_list_struct (some l) = if verify_list l then print_list_info l else some []

    module _ (size : ℕ → ℕ) where
      -- The loop of `adjustLink`, for the node `ref`: what is printed, and the second iterator.
      unfoldable pub adjust_loop : ℕ → ℕ → ℕ → Iter → Option (List Piece × Iter)
      adjust_loop zero ref tmp iter2 = none
      adjust_loop (suc fuel) ref tmp iter2 = if tmp == ref then some ([], iter2) else (do
        (tmp', iter2') ← get_next h iter2 1
        (ps, iter2'') ← adjust_loop fuel ref tmp' iter2'
        some (link ∷ dashes (size tmp) ++ ps, iter2''))

      -- `adjustLink`
      unfoldable pub adjust_link : ℕ → ℕ → Iter → Iter → Option (List Piece × Iter × Iter)
      adjust_link fuel lev iter1 iter2 = do
        (ref, iter1') ← get_next h iter1 (lev + 1)
        (tmp, iter2') ← get_next h iter2 1
        (ps, iter2'') ← adjust_loop fuel ref tmp iter2'
        some (ps, iter1', iter2'')

      -- `if ( L ) adjustLink ( &iter1, &iter2, L, sizeofData );`
      unfoldable pub between : ℕ → ℕ → Iter → Iter → Option (List Piece × Iter × Iter)
      between fuel zero iter1 iter2 = some ([], iter1, iter2)
      between fuel (suc lev) iter1 iter2 = adjust_link fuel (suc lev) iter1 iter2

      -- The inner loop of `drawList` on level `lev`, from node `x` on.
      unfoldable pub row_loop : SkipList D → ℕ → ℕ → ℕ → Iter → Iter → Option (List Piece)
      row_loop l lev zero x iter1 iter2 = none
      row_loop l lev (suc fuel) x iter1 iter2 = do
        y ← load h x lev
        if y == l.header then some [] else (do
          (ps, iter1', iter2') ← between (rounds l) lev iter1 iter2
          rest ← row_loop l lev fuel y iter1' iter2'
          some (ps ++ arrow ∷ datum y ∷ rest))

      -- The outer loop of `drawList`: levels `n` down to 1.
      unfoldable pub draw_loop : SkipList D → ℕ → Option (List Piece)
      draw_loop l zero = some []
      draw_loop l (suc lev) = do
        first ← load h l.header lev
        row ←
            (if first == l.header then some (no_nodes ∷ []) else (do
              let start = set_iterator l h null null
              ps ← row_loop l lev (rounds l) l.header start start
              some (ps ++ newline ∷ [])))
        rest ← draw_loop l lev
        some (level_label (suc lev) ∷ row ++ rest)

  -- `drawList`: what is printed, the iterators that are not freed, and the heap.
  unfoldable pub draw_list : SkipList D → Heap D → (ℕ → ℕ) → Option (List Piece × ℕ × Heap D)
  draw_list l h size =
      let (given1, h1) = malloc h in
      if not given1
      then some ([], 0, h1)
      else (let (given2, h2) = malloc h1 in
          if not given2
          then some ([], 1, h2)
          else (do ps ← draw_loop h2 size l l.maxlevel; some (ps, 0, h2)))

  -- `MySKLdrawList`; `given` tells that the two handlers are not NULL.
  unfoldable pub draw :
      Option (SkipList D) → Heap D → Bool → (ℕ → ℕ) → Option (List Piece × ℕ × Heap D)
  draw none h given size = some ([], 0, h)
  draw (some l) h given size =
      if verify_list l
      then if given then draw_list l h size else some ([], 0, h)
      else some ([], 0, h)
