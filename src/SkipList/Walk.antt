-- ===== src/SkipList/Walk.antt =====
-- The walk along one level, and the place where it stops.
use myskl.Prelude.{
  ℕ, zero, suc, ◌<◌, ◌≡◌, ◌≢◌, true, false, some, List, [], ◌∷◌, ◌++◌, arith, All, length, last_or,
  ◌>>=◌, ne→==, ==_self,
}
use myskl.Heap.{Heap}
use myskl.Heap.Chain.{Chain}
use myskl.Heap.Writes.{load-some}
use myskl.SkipList.{SkipList, less, goes_on, walk}

module _ {D : Type 0} (l : SkipList D) (h : Heap D) (n i : ℕ) where
  -- The walk passes node `a` on level `i`.
  pub record Passes (a : ℕ) : Type 0 where
    pub below : less l h a n ≡ some true
    pub wide : i < h.cap a
    pub inner : a ≢ l.header

  -- The walk stops before the first of these.
  abbrev pub StopsAt : List ℕ → Type 0
  StopsAt [] = Unit
  StopsAt (b ∷ _) = (less l h b n ≡ some false) × (b ≢ l.header)

  goes_on-true : (x y : ℕ) → i < h.cap x → h.next x i ≡ y → Passes y → goes_on l h i x n ≡ some true
  unfolding goes_on
  goes_on-true x y w e p = rw (load-some h x i w, ◌>>=◌, e, ne→== y l.header p.inner) p.below

  goes_on-false :
      (x : ℕ) (v : List ℕ)
      → i < h.cap x
      → Chain h.next l.header i x v
      → StopsAt v
      → goes_on l h i x n ≡ some false
  unfolding goes_on
  goes_on-false x [] w c s = rw (load-some h x i w, ◌>>=◌, c, ==_self l.header)
  goes_on-false x (b ∷ v) w c s = rw (load-some h x i w, ◌>>=◌, c.0, ne→== b l.header s.1) s.0

  pub walk-last_or :
      (fuel x : ℕ) (u v : List ℕ)
      → length u < fuel
      → i < h.cap x
      → Chain h.next l.header i x (u ++ v)
      → All Passes u
      → StopsAt v
      → walk l h n i fuel x ≡ some (last_or x u)
  unfolding walk
  walk-last_or zero x u v f w c p s = absurd (omega arith)
  walk-last_or (suc fuel) x [] v f w c p s = rw (goes_on-false x v w c s)
  walk-last_or (suc fuel) x (a ∷ u) v f w c p s =
      rw (goes_on-true x a w c.0 p.0, load-some h x i w, ◌>>=◌, c.0)
        (walk-last_or fuel a u v (omega arith) p.0.wide c.1 p.1 s)

  pub All-StopsAt :
      (v : List ℕ) → All (λ b. (less l h b n ≡ some false) × (b ≢ l.header)) v → StopsAt v
  All-StopsAt [] s = tt
  All-StopsAt (b ∷ v) s = s.0
