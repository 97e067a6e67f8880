-- ===== src/Delete/Unlinks.antt =====
-- The loop that takes a node out of its levels.
use myskl.Prelude.{
  ℕ, zero, suc, ◌+◌, ◌≤◌, ◌<◌, ◌≡◌, ◌≢◌, refl, Option, some, arith, ◌>>=◌, ne→==, ==_self,
}
use native.Mathlib.Decide.{dec_lt}
use myskl.Heap.{Heap, update_entry}
use myskl.Heap.Writes.{load-some, store-some}
use myskl.Delete.{unlink_loop}
use myskl.Delete.Removed.{Unlinked}

-- What the loop relies on: `p j` is the node in front of `x` on each of the `top` levels of the list,
-- and `x` has the levels below `lev`.
pub record IsBehind {D : Type 0} (h : Heap D) (x lev top : ℕ) (p : ℕ → ℕ) : Type 0 where
  pub fits : lev ≤ top
  pub on : (j : ℕ) → j < lev → h.next (p j) j ≡ x
  pub off : (j : ℕ) → lev ≤ j → j < top → h.next (p j) j ≢ x
  pub wide : (j : ℕ) → j < top → j < h.cap (p j)
  pub own : (j : ℕ) → j < lev → j < h.cap x
  pub apart : (j : ℕ) → x ≢ p j

module _ {D : Type 0} {h : Heap D} {x lev top : ℕ} {p : ℕ → ℕ} (b : IsBehind h x lev top p)
    (upd : ℕ → Option ℕ) (set : (j : ℕ) → j < top → upd j ≡ some (p j)) where
  unlink_loop-step :
      (n i : ℕ)
      → i + n ≡ top
      → i ≤ lev
      → (g : ℕ → ℕ → ℕ) → Unlinked h.next g x p i
      → (f : ℕ → ℕ → ℕ) × (unlink_loop x upd n i (record h { next = g })
          ≡ some (record h { next = f }))
        × Unlinked h.next f x p lev
  unfolding unlink_loop update_entry
  unlink_loop-step zero i e le g un = (g, refl, λ j a. ground (arith, un j a, b.fits))
  unlink_loop-step (suc n) i e le g un =
      let h' : Heap D = record h { next = g } in
      let seen = load-some h' (p i) i (b.wide i (omega arith)) in
      elim (dec_lt i lev) [
        | yes on ↦
            let here : g (p i) i ≡ x = ground (arith, un i (p i), b.on i on) in
            let (f, run, un') =
              unlink_loop-step n (i + 1) (omega arith) (omega arith)
                (update_entry g (p i) i (g x i))
                (λ j a. ground (arith, un j a, un i x, b.apart i, b.apart j)) in
            (
              f,
              rw
                  (
                    set i (omega arith),
                    ◌>>=◌,
                    seen,
                    ◌>>=◌,
                    here,
                    ==_self x,
                    load-some h' x i (b.own i on),
                    ◌>>=◌,
                    store-some h' (p i) i (g x i) (b.wide i (omega arith)),
                    ◌>>=◌,
                  )
                  run,
              un',
            )
        | no off ↦
            let past : g (p i) i ≢ x =
              λ q. b.off i (omega arith) (omega arith) (ground (arith, un i (p i))) in
            (
              g,
              rw (set i (omega arith), ◌>>=◌, seen, ◌>>=◌, ne→== (g (p i) i) x past),
              λ j a. ground (arith, un j a),
            )
      ]

  -- It takes `x` out of each level that `x` is on, and writes nothing else.
  pub unlink_loop-Unlinked :
      (f : ℕ → ℕ → ℕ) × (unlink_loop x upd top 0 h ≡ some (record h { next = f }))
      × Unlinked h.next f x p lev
  unlink_loop-Unlinked =
      unlink_loop-step top 0 (omega arith) (omega arith) h.next (λ j a. ground arith)
