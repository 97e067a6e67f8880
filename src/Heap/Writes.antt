-- ===== src/Heap/Writes.antt =====
-- What reads and writes of `Heap.antt` return.
use myskl.Prelude.{ℕ, ◌<◌, ◌≡◌, ◌≢◌, some, arith}
use myskl.Heap.{Heap, update, update_entry, load, store}

pub update_self {ℓ} : {A : Type ℓ} (f : ℕ → A) (a : ℕ) (b : A) → update f a b a ≡ b
unfolding update
update_self f a b = ground arith

pub update_ne {ℓ} : {A : Type ℓ} (f : ℕ → A) (a : ℕ) (b : A) {x : ℕ} → x ≢ a → update f a b x ≡ f x
unfolding update
update_ne f a b h = ground arith

module _ {D : Type 0} where
  pub load-some : (h : Heap D) (a i : ℕ) → i < h.cap a → load h a i ≡ some (h.next a i)
  unfolding load
  load-some h a i lt = ground arith

  pub store-some :
      (h : Heap D) (a i b : ℕ)
      → i < h.cap a
      → store h a i b ≡ some (record h { next = update_entry h.next a i b })
  unfolding store
  store-some h a i b lt = ground arith
