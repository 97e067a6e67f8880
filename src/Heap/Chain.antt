-- ===== src/Heap/Chain.antt =====
-- The nodes that the pointers of one level lead through, from a node to the header that ends them.
use myskl.Prelude.{
  ℕ, ◌≡◌, refl, ◌≢◌, Bool, true, false, ◌||◌, List, [], ◌∷◌, ◌++◌, arith, ◌==◌, if◌then◌else◌,
  last_or, last_or-append,
}

abbrev pub has : ℕ → List ℕ → Bool
has a [] = false
has a (x ∷ xs) = (a == x) || has a xs

-- No address twice.
abbrev pub Distinct : List ℕ → Type 0
Distinct [] = Unit
Distinct (x ∷ xs) = (has x xs ≡ false) × Distinct xs

-- From `x` the entries `i` of `next` lead through `xs` to `stop`.
abbrev pub Chain : (ℕ → ℕ → ℕ) → ℕ → ℕ → ℕ → List ℕ → Type 0
Chain next stop i x [] = next x i ≡ stop
Chain next stop i x (a ∷ xs) = (next x i ≡ a) × Chain next stop i a xs

pub has-append : (a : ℕ) (xs ys : List ℕ) → has a (xs ++ ys) ≡ (has a xs || has a ys)
has-append a [] ys = refl
has-append a (x ∷ xs) ys = ground (arith, has-append a xs ys)

pub has-last_or : (d : ℕ) (xs : List ℕ) → (d == last_or d xs) || has (last_or d xs) xs ≡ true
has-last_or d [] = ground arith
has-last_or d (x ∷ xs) = ground (arith, has-last_or x xs)

-- A node that is not in the list is not its last.
pub ne-last_or : (a d : ℕ) (xs : List ℕ) → a ≢ d → has a xs ≡ false → a ≢ last_or d xs
ne-last_or a d [] ne out = ne
ne-last_or a d (x ∷ xs) ne out = ne-last_or a x xs (ground arith) (ground arith)

module _ (next : ℕ → ℕ → ℕ) (stop i : ℕ) where
  -- Only the entries of the nodes on the way count.
  pub Chain-frame :
      (next' : ℕ → ℕ → ℕ) (x : ℕ) (xs : List ℕ)
      → ((a : ℕ) → (a == x) || has a xs ≡ true → next' a i ≡ next a i)
      → Chain next stop i x xs
      → Chain next' stop i x xs
  Chain-frame next' x [] same c = ground (arith, same x)
  Chain-frame next' x (a ∷ xs) same c =
      (ground (arith, same x), Chain-frame next' a xs (λ b e. same b (ground arith)) c.1)

  pub Chain-drop :
      (x : ℕ) (u v : List ℕ) → Chain next stop i x (u ++ v) → Chain next stop i (last_or x u) v
  Chain-drop x [] v c = c
  Chain-drop x (a ∷ u) v c = Chain-drop a u v c.1

  -- Node `n` linked behind the last of `u`.
  pub Chain-insert :
      (next' : ℕ → ℕ → ℕ) (x n : ℕ) (u v : List ℕ)
      → Distinct (x ∷ u ++ v)
      → n ≢ x
      → has n (u ++ v) ≡ false
      → ((a : ℕ)
          → next' a i
            ≡ (if a == n then next (last_or x u) i else if a == last_or x u then n else next a i))
      → Chain next stop i x (u ++ v)
      → Chain next' stop i x (u ++ n ∷ v)
  Chain-insert next' x n [] [] d ne out eq c = (ground (arith, eq x), ground (arith, eq n))
  Chain-insert next' x n [] (b ∷ v) d ne out eq c = (
    ground (arith, eq x),
    (ground (arith, eq n), Chain-frame next' b v (λ a e. ground (arith, eq a)) c.1),
  )
  Chain-insert next' x n (b ∷ u) v d ne out eq c = (
    ground (arith, eq x, ne-last_or x b u, has-append x u v),
    Chain-insert next' b n u v d.1 (ground arith) (ground arith) eq c.1,
  )

  -- Node `n` unlinked from behind the last of `u`.
  pub Chain-remove :
      (next' : ℕ → ℕ → ℕ) (x n : ℕ) (u v : List ℕ)
      → Distinct (x ∷ u ++ n ∷ v)
      → ((a : ℕ) → next' a i ≡ (if a == last_or x u then next n i else next a i))
      → Chain next stop i x (u ++ n ∷ v)
      → Chain next' stop i x (u ++ v)
  Chain-remove next' x n [] [] d eq c = ground (arith, eq x)
  Chain-remove next' x n [] (b ∷ v) d eq c =
      (ground (arith, eq x), Chain-frame next' b v (λ a e. ground (arith, eq a)) c.1.1)
  Chain-remove next' x n (b ∷ u) v d eq c = (
    ground (arith, eq x, ne-last_or x b u, has-append x u (n ∷ v)),
    Chain-remove next' b n u v d.1 eq c.1,
  )

pub Distinct-insert :
    (n : ℕ) (us vs : List ℕ)
    → Distinct (us ++ vs)
    → has n (us ++ vs) ≡ false
    → Distinct (us ++ n ∷ vs)
Distinct-insert n [] vs d out = (out, d)
Distinct-insert n (b ∷ us) vs d out = (
  ground (arith, has-append b us vs, has-append b us (n ∷ vs)),
  Distinct-insert n us vs d.1 (ground arith),
)

pub Distinct-remove : (n : ℕ) (us vs : List ℕ) → Distinct (us ++ n ∷ vs) → Distinct (us ++ vs)
Distinct-remove n [] vs d = d.1
Distinct-remove n (b ∷ us) vs d =
    (ground (arith, has-append b us vs, has-append b us (n ∷ vs)), Distinct-remove n us vs d.1)

-- The tail after node `x` has been put between `us` and `vs`, found from the pointer `q` that
-- `x` has on level 0.
pub tail_insert :
    (next : ℕ → ℕ → ℕ) (stop x q tail : ℕ) (us vs : List ℕ)
    → Chain next stop 0 (last_or stop us) vs
    → q ≡ next (last_or stop us) 0
    → has stop vs ≡ false
    → tail ≡ last_or stop (us ++ vs)
    → (if q == stop then x else tail) ≡ last_or stop (us ++ x ∷ vs)
tail_insert next stop x q tail us [] c e out t = rw last_or-append (ground arith)
tail_insert next stop x q tail us (b ∷ vs) c e out t =
    rw last_or-append (ground (arith, last_or-append stop us (b ∷ vs)))

-- The first node of a list of addresses, and `d` if there is none.
abbrev pub head_or : ℕ → List ℕ → ℕ
head_or d [] = d
head_or d (x ∷ xs) = x

pub Chain-head_or :
    (next : ℕ → ℕ → ℕ) (stop i x : ℕ) (xs : List ℕ)
    → Chain next stop i x xs
    → next x i ≡ head_or stop xs
Chain-head_or next stop i x [] c = c
Chain-head_or next stop i x (a ∷ xs) c = c.0

-- The tail after node `x` between `us` and `vs` has been taken out.
pub tail_remove :
    (stop x q tail : ℕ) (us vs : List ℕ)
    → q ≡ head_or stop vs
    → has stop vs ≡ false
    → tail ≡ last_or stop (us ++ x ∷ vs)
    → (if q == stop then last_or stop us else tail) ≡ last_or stop (us ++ vs)
tail_remove stop x q tail us [] e out t = rw last_or-append (ground arith)
tail_remove stop x q tail us (b ∷ vs) e out t =
    rw last_or-append (ground (arith, last_or-append stop us (x ∷ b ∷ vs)))

pub Distinct-middle :
    (n : ℕ) (us vs : List ℕ) → Distinct (us ++ n ∷ vs) → (has n us || has n vs) ≡ false
Distinct-middle n [] vs d = d.0
Distinct-middle n (b ∷ us) vs d =
    ground (arith, has-append b us (n ∷ vs), Distinct-middle n us vs d.1)

pub Distinct-append_right : (ms ns : List ℕ) → Distinct (ms ++ ns) → Distinct ns
Distinct-append_right [] ns d = d
Distinct-append_right (a ∷ ms) ns d = Distinct-append_right ms ns d.1
