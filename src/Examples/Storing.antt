-- ===== src/Examples/Storing.antt =====
-- A container that holds the two lists of TwoLists, at the addresses 50 and 60.
use myskl.Prelude.{ℕ, ◌≡◌, refl, Option, some, none, List, [], ◌∷◌, arith, ◌==◌, if◌then◌else◌, All}
use myskl.Heap.{Heap}
use myskl.SkipList.{SkipList}
use myskl.Container.{Container, World, start_container, get_acl, push_acl, free_lists_container}
use myskl.Container.Stored.{IsStored, push_acl-IsStored}
use myskl.Container.Emptied.{Owned, IsOwned, AllApart, Emptied, free_lists_container-Emptied}
use myskl.Examples.State.{example_heap, example_list, example_cells}
use myskl.Examples.TwoLists.{two_heap, two-IsSkipList, other_list, other_cells, other-IsSkipList}

-- One address is stored, and the array is full.
abbrev full_container : Container
full_container = record {
  acl = some (record { slots = 1; at = λ i. 50 });
  max_lists = 1;
  lists_cnt = 1;
  mode = 1;
}

full-IsStored : IsStored full_container (50 ∷ [])
unfolding get_acl
full-IsStored = record {
  acl = _;
  has_acl = refl;
  entries = (refl, tt);
  count = refl;
  fits = omega arith;
  room = omega arith;
  full = refl;
}

push_acl-IsStored_example :
    (c' : Container) × (h' : Heap ℕ) × (push_acl (λ i. 0) full_container 60 example_heap
      ≡ some (c', h'))
    × IsStored c' (50 ∷ 60 ∷ [])
push_acl-IsStored_example = push_acl-IsStored (λ i. 0) 60 example_heap full-IsStored (omega arith)

abbrev two_lists : ℕ → Option (SkipList ℕ)
two_lists p = if p == 50 then some example_list else if p == 60 then some other_list else none

abbrev two_world : World ℕ
two_world = record { lists = two_lists; heap = two_heap }

abbrev two_owned : List (Owned ℕ)
two_owned =
    (record { place = 50; list = example_list; cells = example_cells })
    ∷ (record { place = 60; list = other_list; cells = other_cells })
    ∷ []

abbrev two_container : Container
two_container = record {
  acl = some (record { slots = 11; at = λ i. if i == 0 then 50 else 60 });
  max_lists = 10;
  lists_cnt = 2;
  mode = 1;
}

two-IsStored : IsStored two_container (50 ∷ 60 ∷ [])
unfolding get_acl
two-IsStored = record {
  acl = _;
  has_acl = refl;
  entries = (refl, (refl, tt));
  count = refl;
  fits = omega arith;
  room = omega arith;
  full = refl;
}

two-IsOwned : All (IsOwned two_world) two_owned
two-IsOwned = (
  record { real = omega arith; found = refl; inv = two-IsSkipList; dst = refl },
  (record { real = omega arith; found = refl; inv = other-IsSkipList; dst = refl }, tt),
)

two-AllApart : AllApart two_owned
two-AllApart = (
  (
    record {
      place = omega arith;
      left = λ a e. ground (arith, e);
      right = λ a e. ground (arith, e);
    },
    tt,
  ),
  (tt, tt),
)

free_lists_container-Emptied_example :
    (w' : World ℕ) × (free_lists_container two_container two_world ≡ some (start_container, w'))
    × Emptied two_world two_owned 1 w'
free_lists_container-Emptied_example =
    free_lists_container-Emptied two_owned two-IsStored two-IsOwned two-AllApart
