-- ===== src/Draw/Steps.antt =====
-- src/skl_draw.c: how `adjustLink` brings its second iterator to the node of the first one.
use myskl.Prelude.{
  ℕ, zero, suc, ◌+◌, ◌<◌, ◌≡◌, refl, false, some, List, [], ◌∷◌, ◌++◌, arith, ◌>>=◌, length, All,
  ◌==◌, ne→==, ==_self, add_sub_one,
}
use myskl.Heap.{Heap}
use myskl.Heap.Chain.{has, Chain}
use myskl.Heap.Writes.{load-some}
use myskl.SkipList.{null}
use myskl.Iter.{get_next}
use myskl.Iter.Traverse.{at_node}
use myskl.Draw.{Piece, link, dashes, adjust_loop, adjust_link}

-- What stands for nodes that a level passes by.
abbrev pub skips : (ℕ → ℕ) → List ℕ → List Piece
skips size [] = []
skips size (a ∷ us) = link ∷ dashes (size a) ++ skips size us

pub skips-nil : (size : ℕ → ℕ) (a : ℕ) → skips size (a ∷ []) ≡ link ∷ dashes (size a) ++ []
skips-nil size a = refl

module _ {D : Type 0} (h : Heap D) (header : ℕ) where
  -- A node of the list that is not its end, with an array
  pub record IsDrawn (a : ℕ) : Type 0 where
    pub inside : (a == header) ≡ false
    pub wide : h.cap a ≡ h.sz a
    pub high : 0 < h.sz a

  get_next-node :
      (p level j a : ℕ)
      → j < h.cap p
      → h.next p j ≡ a
      → (a == header) ≡ false
      → get_next h (at_node header null p level) (j + 1) ≡ some (a, at_node header null a (h.sz a))
  unfolding get_next
  get_next-node p level j a wide e inside =
      rw (add_sub_one j, load-some h p j wide, ◌>>=◌, e, inside) refl

  module _ (size : ℕ → ℕ) where
    -- From node `a` past the nodes `us` to node `b`.
    adjust_loop-skips :
        (a : ℕ) (us : List ℕ) (b : ℕ) (rest : List ℕ) (fuel : ℕ)
        → length us + 1 < fuel
        → Chain h.next header 0 a (us ++ b ∷ rest)
        → All IsDrawn (a ∷ us)
        → IsDrawn b
        → has b (a ∷ us) ≡ false
        → adjust_loop h size fuel b a (at_node header null a (h.sz a))
          ≡ some (skips size (a ∷ us), at_node header null b (h.sz b))
    unfolding adjust_loop
    adjust_loop-skips a [] b rest (suc (suc fuel)) short chain drawn there out =
        rw
          (
            adjust_loop,
            ne→== a b (ground arith),
            get_next-node a (h.sz a) 0 b (omega (arith, drawn.0.wide, drawn.0.high)) chain.0
                there.inside,
            ◌>>=◌,
            ==_self b,
            ◌>>=◌,
          )
          refl
    adjust_loop-skips a (c ∷ us) b rest (suc fuel) short chain drawn there out =
        rw
          (
            adjust_loop,
            ne→== a b (ground arith),
            get_next-node a (h.sz a) 0 c (omega (arith, drawn.0.wide, drawn.0.high)) chain.0
                drawn.1.0.inside,
            ◌>>=◌,
            adjust_loop-skips c us b rest fuel (omega arith) chain.1 drawn.1 there (ground arith),
            ◌>>=◌,
          )
          refl
    adjust_loop-skips a us b rest zero short chain drawn there out = absurd (omega arith)
    adjust_loop-skips a [] b rest (suc zero) short chain drawn there out = absurd (omega arith)

    -- Both iterators at node `x`: the first goes on to `b` on its level, the second follows it past
    -- the nodes `us`.
    pub adjust_link-skips :
        (lev x level : ℕ) (us : List ℕ) (b : ℕ) (rest : List ℕ) (fuel : ℕ)
        → length us + 1 < fuel
        → lev < h.cap x
        → h.next x lev ≡ b
        → Chain h.next header 0 x (us ++ b ∷ rest)
        → All IsDrawn us
        → IsDrawn b
        → has b us ≡ false
        → adjust_link h size fuel lev (at_node header null x level) (at_node header null x level)
          ≡ some (skips size us, at_node header null b (h.sz b), at_node header null b (h.sz b))
    unfolding adjust_link adjust_loop
    adjust_link-skips lev x level [] b rest (suc fuel) short wide e chain drawn there out =
        rw
          (
            get_next-node x level lev b wide e there.inside,
            ◌>>=◌,
            get_next-node x level 0 b (omega arith) chain.0 there.inside,
            ◌>>=◌,
            ==_self b,
            ◌>>=◌,
          )
          refl
    adjust_link-skips lev x level (a ∷ us) b rest fuel short wide e chain drawn there out =
        rw
          (
            get_next-node x level lev b wide e there.inside,
            ◌>>=◌,
            get_next-node x level 0 a (omega arith) chain.0 drawn.0.inside,
            ◌>>=◌,
            adjust_loop-skips a us b rest fuel (omega arith) chain.1 drawn there out,
            ◌>>=◌,
          )
          refl
    adjust_link-skips lev x level [] b rest zero short wide e chain drawn there out =
        absurd (omega arith)
