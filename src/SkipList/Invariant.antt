-- ===== src/SkipList/Invariant.antt =====
-- What it means that a list in the heap is well formed and stands for given cells.
use myskl.Prelude.{ℕ, ◌≤◌, ◌<◌, ◌≡◌, ◌≢◌, some, ◌∷◌, All, length, last_or}
use myskl.Heap.{Heap}
use myskl.Heap.Chain.{Distinct, Chain}
use myskl.SkipList.{SkipList, null, list_magic, max_levels}
use myskl.SkipList.Cells.{Cells, IsOrder, addrs, at, height, Sorted}

module _ {D : Type 0} where
  -- A node of the list: its data, its array of pointers, and the number of its levels.
  pub record IsNode (h : Heap D) (top a : ℕ) (v : D) : Type 0 where
    pub holds : h.val a ≡ some v
    pub full : h.cap a ≡ h.sz a
    pub pos : 1 ≤ h.sz a
    pub low : h.sz a ≤ top

  pub record IsSkipList (h : Heap D) (l : SkipList D) (xs : Cells D) : Type 0 where
    pub order : IsOrder l.cmp
    pub magic : l.magic ≡ list_magic
    pub has_header : l.header ≢ null
    pub small : l.maxlevel ≤ max_levels
    pub top : l.curlevel ≡ height h.sz xs
    pub fits : l.curlevel ≤ l.maxlevel
    pub room : h.cap l.header ≡ l.maxlevel
    pub apart : Distinct (l.header ∷ addrs xs)
    pub nodes : All (λ c. IsNode h l.curlevel c.0 c.1) xs
    pub sorted : Sorted l.cmp xs
    pub chains : (i : ℕ) → i < l.maxlevel → Chain h.next l.header i l.header (at h.sz i xs)
    pub count : l.nodenum ≡ length xs
    pub last : l.tail ≡ last_or l.header (addrs xs)
