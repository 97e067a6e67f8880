-- ===== src/Delete/Level.antt =====
-- `adjustCurLevel` of src/skl_del.c.
use myskl.Prelude.{
  ℕ, zero, suc, ◌-◌, ◌^◌, ◌≤◌, ◌<◌, ◌≡◌, ◌≢◌, refl, ap, false, some, List, [], ◌∷◌, arith, ◌>>=◌,
  ◌⊎◌, inl, inr, ne→==, ==_self,
}
use myskl.Heap.{Heap}
use myskl.Heap.Chain.{has, Chain, head_or, Chain-head_or}
use myskl.Heap.Writes.{load-some}
use myskl.SkipList.{SkipList}
use myskl.SkipList.Cells.{Cells, addrs, at, height, height_pos, at-height, height-le_of_at, has-at}
use myskl.Delete.{uint_dec, adjust_loop, adjust_cur_level}
use native.Mathlib.Decide.{dec_lt}

uint_dec_lem : (x : ℕ) → 0 < x → x < 2 ^ 32 → uint_dec x ≡ x - 1
unfolding uint_dec
uint_dec_lem x p h = omega arith

head_or-cases :
    (d : ℕ) (bs : List ℕ)
    → has d bs ≡ false
    → ((head_or d bs ≡ d) × (bs ≡ [])) ⊎ ((head_or d bs ≢ d) × (bs ≢ []))
head_or-cases d [] out = inl (refl, refl)
head_or-cases d (b ∷ bs) out = inr (ground arith, λ e. cc)

module _ {D : Type 0} (l : SkipList D) (h : Heap D) (xs : Cells D)
    (out : has l.header (addrs xs) ≡ false) (top : ℕ) (room : top ≤ h.cap l.header)
    (chains : (i : ℕ) → i < top → Chain h.next l.header i l.header (at h.sz i xs)) where
  pub adjust_loop-height :
      (k level : ℕ)
      → level ≡ suc k
      → level ≤ top
      → level < 2 ^ 32
      → height h.sz xs ≤ level
      → adjust_loop l h k level ≡ some (height h.sz xs)
  unfolding adjust_loop
  adjust_loop-height zero level e le small high = ap some (omega (arith, height_pos h.sz xs))
  adjust_loop-height (suc k) level e le small high =
      let first = Chain-head_or h.next l.header (suc k) l.header _ (chains (suc k) (omega arith)) in
      let seen = load-some h l.header (suc k) (omega arith) in
      elim (head_or-cases l.header (at h.sz (suc k) xs) (has-at l.header h.sz (suc k) xs out)) [
        | inl (q, none_there) ↦
            rw (seen, ◌>>=◌, first, q, ==_self l.header)
              (adjust_loop-height k (uint_dec level)
                (omega (arith, uint_dec_lem level (omega arith) small))
                (omega (arith, uint_dec_lem level (omega arith) small))
                (omega (arith, uint_dec_lem level (omega arith) small))
                (omega (
                  arith,
                  uint_dec_lem level (omega arith) small,
                  height-le_of_at h.sz (suc k) xs (omega arith) none_there,
                )))
        | inr (q, some_there) ↦
            rw (seen, ◌>>=◌, first, ne→== _ _ q)
              (ap some (elim (dec_lt (height h.sz xs) level) [
                | yes less ↦ absurd (some_there (at-height h.sz (suc k) xs (omega arith)))
                | no top_level ↦ omega arith
              ]))
      ]

  -- From any level that is high enough, the list's level becomes its height.
  pub adjust_cur_level-height :
      1 ≤ l.curlevel
      → l.curlevel ≤ top
      → l.curlevel < 2 ^ 32
      → height h.sz xs ≤ l.curlevel
      → adjust_cur_level l h ≡ some (record l { curlevel = height h.sz xs })
  unfolding adjust_cur_level
  adjust_cur_level-height pos le small high = rw (
    adjust_loop-height (uint_dec l.curlevel) l.curlevel
        (omega (arith, uint_dec_lem l.curlevel pos small)) le small high,
    ◌>>=◌,
  )
