-- ===== src/Examples/Picturing.antt =====
-- The drawing and the listing of the small list.
use myskl.Prelude.{ℕ, ◌≡◌, refl, true, some, List, [], ◌∷◌, arith}
use myskl.SkipList.{null, rounds}
use myskl.Iter.{set_iterator}
use myskl.Draw.{
  Piece, level_label, no_nodes, link, dash, arrow, newline, datum, list_info, node_info, row_loop,
  draw, display_list_struct, dashes,
}
use myskl.Draw.Picture.{draw_lem, two_mallocs}
use myskl.Draw.Widths.{column, row_loop-column}
use myskl.Draw.Listing.{display_list_struct-infos}
use myskl.Examples.State.{example_heap, example_list, example-IsSkipList}

-- Numbers of two digits
abbrev two_digits : ℕ → ℕ
two_digits a = 2

abbrev drawn : List Piece
drawn =
    level_label 3
    ∷ no_nodes
    ∷ level_label 2
    ∷ link
    ∷ dash
    ∷ dash
    ∷ arrow
    ∷ datum 3
    ∷ newline
    ∷ level_label 1
    ∷ arrow
    ∷ datum 2
    ∷ arrow
    ∷ datum 3
    ∷ newline
    ∷ []

draw_lem_example :
    draw (some example_list) example_heap true two_digits
    ≡ some (drawn, 0, two_mallocs example_heap)
unfolding dashes
draw_lem_example = draw_lem example-IsSkipList two_digits

-- The number 20 stands behind ten characters on level 2.
row_loop-column_example :
    let start = set_iterator example_list example_heap null null in
    (ps : List Piece) × (row_loop example_heap two_digits example_list 1
        (rounds example_list)
        1
        start
        start
      ≡ some ps)
    × (column two_digits 3 ps ≡ some 10)
row_loop-column_example =
    row_loop-column two_digits example-IsSkipList ((2, 10) ∷ []) 3 20 [] refl 1 (omega arith)

display_list_struct-infos_example :
    display_list_struct example_heap (some example_list)
    ≡ some (
        list_info 2 1 3
        ∷ node_info 1 2 1 ((0, 3) ∷ [])
        ∷ node_info 2 3 2 ((0, 1) ∷ (1, 1) ∷ [])
        ∷ [])
display_list_struct-infos_example = display_list_struct-infos example-IsSkipList
