-- ===== src/Delete/Node.antt =====
-- `deleteI` from the unlinking on: the list without the node, and the node destroyed.
use myskl.Prelude.{
  ℕ, ◌+◌, ◌^◌, ◌<◌, ◌≡◌, ◌≢◌, refl, sym, ap, ◌∙◌, true, false, Option, some, none, ◌∷◌, ◌++◌, arith,
  ◌==◌, if◌then◌else◌, ◌>>=◌, All-mono, All-append_left, All-last_or,
}
use myskl.Heap.{Heap, Mstat, free_next}
use myskl.Heap.Chain.{has, has-append, ne-last_or}
use myskl.Heap.Writes.{load-some, update_self, update_ne}
use myskl.SkipList.{SkipList, status_ok}
use myskl.SkipList.Cells.{
  Cells, addrs, addrs-append, at, height, All-at, height-append, height_pos, has-at,
}
use myskl.SkipList.Invariant.{IsSkipList}
use myskl.SkipList.Frame.{SameNode, IsIn, IsSkipList-frame}
use myskl.Delete.{destroy_node, remove_node}
use myskl.Delete.Removed.{
  pred_of, own, has_out, ne-pred_of, next-pred_of, next-pred_of_ne, next-own, list',
  Removed-IsSkipList,
}
use myskl.Delete.Unlinks.{IsBehind, unlink_loop-Unlinked}
use myskl.Delete.Level.{adjust_cur_level-height}

-- The counters after a block has been freed.
abbrev pub freed_one : Mstat → Mstat
freed_one st = record st { freed_count = st.freed_count + 1 }

module _ {D : Type 0} (l : SkipList D) (h : Heap D) (x : ℕ) where
  pub destroy_node-SameNode : (a : ℕ) → a ≢ x → SameNode h (destroy_node l h x) a
  unfolding destroy_node free_next
  destroy_node-SameNode a ne = record {
    next = λ j. ground arith;
    cap = ground (arith, update_ne h.cap x 0 ne);
    sz = ground arith;
    val = ground (arith, update_ne h.val x none ne);
  }

  pub destroy_node-sz : (destroy_node l h x).sz ≡ h.sz
  unfolding destroy_node free_next
  destroy_node-sz = ground arith

  pub destroy_node-cap : 0 < h.cap x → (destroy_node l h x).cap x ≡ 0
  unfolding destroy_node free_next
  destroy_node-cap lt = ground (arith, update_self h.cap x 0)

  pub destroy_node-stat : 0 < h.cap x → (destroy_node l h x).stat ≡ freed_one h.stat
  unfolding destroy_node free_next
  destroy_node-stat lt = ground arith

  pub destroy_node-val : l.dst ≡ true → (destroy_node l h x).val x ≡ none
  unfolding destroy_node
  destroy_node-val e = rw e (update_self _ x none)

-- The list `l'` in `h'` is `l` in `h`, which stood for `xs`, without node `x`: it is well formed and
-- stands for `ys`, the node's array is freed, the node is released if the list has a destroyer, and
-- nothing else is touched.
pub record Deleted {D : Type 0} (h : Heap D) (l : SkipList D) (xs ys : Cells D) (x : ℕ)
    (h' : Heap D) (l' : SkipList D) : Type 0 where
  pub kept : IsSkipList h' l' ys
  pub stat : h'.stat ≡ freed_one h.stat
  pub no_array : h'.cap x ≡ 0
  pub released : l.dst ≡ true → h'.val x ≡ none
  pub others : (a : ℕ) → has a (l.header ∷ addrs xs) ≡ false → SameNode h h' a
  pub vals : (a : ℕ) → a ≢ x → h'.val a ≡ h.val a
  pub same_cmp : l'.cmp ≡ l.cmp
  pub same_header : l'.header ≡ l.header

module _ {D : Type 0} {h : Heap D} {l : SkipList D} (us vs : Cells D) (x : ℕ) (v : D)
    (inv : IsSkipList h l (us ++ (x, v) ∷ vs)) where
  pub behind : IsBehind h x (h.sz x) l.curlevel (pred_of us vs x v inv)
  behind = record {
    fits = (own us vs x v inv).low;
    on = next-pred_of us vs x v inv;
    off = λ j le lt. next-pred_of_ne us vs x v inv j le (omega (arith, inv.fits));
    wide = λ j lt.
        All-last_or (λ a. j < h.cap a) l.header (at h.sz j us) (omega (arith, inv.room, inv.fits))
          (All-at (λ a. j < h.cap a) h.sz j us
            (All-mono _ _ (λ c p lt. omega (arith, p.full)) us
              (All-append_left _ us ((x, v) ∷ vs) inv.nodes)));
    own = λ j lt. omega (arith, (own us vs x v inv).full);
    apart = ne-pred_of us vs x v inv;
  }

  ne_removed : (a : ℕ) → IsIn a l (us ++ vs) → a ≢ x
  ne_removed a e =
      let (out_us, out_vs, _, _, apart) = has_out us vs x v inv in
      ground (
        arith,
        ap (has a) (addrs-append us vs),
        has-append a (addrs us) (addrs vs),
        out_us,
        out_vs,
        apart,
      )

  outside :
      (a : ℕ)
      → has a (l.header ∷ addrs (us ++ (x, v) ∷ vs)) ≡ false
      → (a ≢ l.header) × (has a (addrs us) ≡ false) × (a ≢ x)
  outside a out =
      let parts = ap (has a) (addrs-append us ((x, v) ∷ vs)) in
      let parts' = has-append a (addrs us) (x ∷ addrs vs) in
      (ground arith, ground (arith, parts, parts'), ground (arith, parts, parts'))

  pub remove_node-Deleted :
      (upd : ℕ → Option ℕ)
      → ((j : ℕ) → j < l.curlevel → upd j ≡ some (pred_of us vs x v inv j))
      → l.nodenum < 2 ^ 32
      → (l' : SkipList D) × (h' : Heap D) × (remove_node l h x upd ≡ some (status_ok, l', h'))
        × Deleted h l (us ++ (x, v) ∷ vs) (us ++ vs) x h' l'
  unfolding remove_node
  remove_node-Deleted upd set small =
      let (f, run, un) = unlink_loop-Unlinked behind upd set in
      let p = pred_of us vs x v inv in
      let h1 : Heap D = record h { next = f } in
      let after = list' us vs x v inv f un in
      let l1 : SkipList D = record l { tail = if h.next x 0 == l.header then p 0 else l.tail } in
      let h2 = destroy_node l1 h1 x in
      let inv1 = Removed-IsSkipList us vs x v inv f un small in
      let has_cap : 0 < h.cap x =
        omega (arith, (own us vs x v inv).full, (own us vs x v inv).pos) in
      let inv2 : IsSkipList h2 after (us ++ vs) =
        IsSkipList-frame h2 (λ a e. destroy_node-SameNode l1 h1 x a (ne_removed a e)) inv1 in
      let sizes = destroy_node-sz l1 h1 x in
      let same_header =
        destroy_node-SameNode l1 h1 x l.header (λ e. (has_out us vs x v inv).4 (sym e)) in
      let adjusted =
        adjust_cur_level-height l1 h2 (us ++ vs) inv2.apart.0 l.curlevel
          (omega (arith, same_header.cap, inv.room, inv.fits))
          (λ i lt. inv2.chains i (omega (arith, inv.fits)))
          (omega (arith, inv.top, height_pos h.sz (us ++ (x, v) ∷ vs))) (omega arith)
          (omega (arith, inv.fits, inv.small))
          (omega (
            arith,
            inv.top,
            ap (λ s. height s (us ++ vs)) sizes,
            height-append h.sz us vs,
            height-append h.sz us ((x, v) ∷ vs),
            height_pos h.sz vs,
          )) in
      (
        after,
        h2,
        rw
            (
              run,
              ◌>>=◌,
              load-some h1 x 0 has_cap,
              ◌>>=◌,
              next-own us vs x v inv f un 0,
              set 0 (omega (arith, inv.top, height_pos h.sz (us ++ (x, v) ∷ vs))),
              ◌>>=◌,
              adjusted,
              ◌>>=◌,
            )
            (ap (λ s. some (status_ok, record after { curlevel = height s (us ++ vs) }, h2)) sizes),
        record {
          kept = inv2;
          stat = destroy_node-stat l1 h1 x has_cap;
          no_array = destroy_node-cap l1 h1 x has_cap;
          released = destroy_node-val l1 h1 x;
          others = λ a out.
              let (ne_header, out_us, ne_x) = outside a out in
              let same = destroy_node-SameNode l1 h1 x a ne_x in
              record {
                next = λ j.
                    same.next j
                    ∙ ground (
                      arith,
                      un j a,
                      ne-last_or a l.header (at h.sz j us) ne_header (has-at a h.sz j us out_us),
                    );
                cap = same.cap;
                sz = same.sz;
                val = same.val;
              };
          vals = λ a ne. (destroy_node-SameNode l1 h1 x a ne).val;
          same_cmp = refl;
          same_header = refl;
        },
      )
