-- ===== src/Search.antt =====
-- src/skl_search.c: a node that compares equal to a given one.
pub mod Found
use myskl.Prelude.{ℕ, zero, suc, true, false, Option, none, some, ◌==◌, if◌then◌else◌, ◌>>=◌}
use myskl.Heap.{Heap, load}
use myskl.SkipList.{
  Status, key_not_found, key_found, error, SkipList, verify_list, null, walk, rounds, matches,
}

module _ {D : Type 0} where
  -- The loop of `search` over the levels below `i`; `null` for no node.
  unfoldable pub search_loop : SkipList D → Heap D → ℕ → ℕ → ℕ → Option ℕ
  search_loop l h n zero x = some null
  search_loop l h n (suc i) x = do
    x' ← walk l h n i (rounds l) x
    y ← load h x' i
    found ← matches l h y n
    elim found [ true ↦ some y | false ↦ search_loop l h n i x' ]

  -- `search`, a name that the language itself uses
  unfoldable pub search_node : SkipList D → Heap D → ℕ → Option ℕ
  search_node l h n = search_loop l h n l.curlevel l.header

  -- `MySKLsearch`: the status, and what `*nodefound` is set to, if it is.
  unfoldable pub search_list : Option (SkipList D) → Heap D → ℕ → Option (Status × Option ℕ)
  search_list none h tofound = some (error, none)
  search_list (some l) h tofound =
      if verify_list l
      then (do
        n ← (if l.nodenum == 0 then some null else search_node l h tofound)
        some (if n == null then (key_not_found, some n) else (key_found, some n)))
      else some (error, none)
