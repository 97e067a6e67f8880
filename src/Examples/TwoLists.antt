-- ===== src/Examples/TwoLists.antt =====
-- Beside the list of State, a second one with the number 10 at the node 8, its header at address 7;
-- and a function that copies the node x to the node x + 100.
use myskl.Prelude.{
  ℕ, zero, suc, ◌+◌, ◌==◌, ◌<◌, ◌≡◌, ◌≢◌, refl, true, Option, none, some, [], ◌∷◌, arith,
  if◌then◌else◌,
}
use myskl.Heap.{Heap}
use myskl.Heap.Chain.{Chain, has}
use myskl.SkipList.{SkipList}
use myskl.SkipList.Cells.{Cells, at, addrs}
use myskl.SkipList.Invariant.{IsSkipList}
use myskl.SkipList.Frame.{IsSkipList-frame, SameNode}
use myskl.Join.{CopyFunc}
use myskl.Join.Ready.{Copies, IsReady, put}
use myskl.Examples.State.{
  example_heap, example_list, example_cells, example_next, example_cap, example_val,
  example-IsSkipList, compare_numbers-IsOrder,
}

abbrev two_next : ℕ → ℕ → ℕ
two_next a i = if a == 7 then (if i == 0 then 8 else 7) else if a == 8 then 7 else example_next a i

abbrev two_cap : ℕ → ℕ
two_cap a = if a == 7 then 2 else if a == 8 then 1 else example_cap a

abbrev two_val : ℕ → Option ℕ
two_val a = if a == 8 then some 10 else example_val a

abbrev pub two_heap : Heap ℕ
two_heap = record example_heap { next = two_next; cap = two_cap; sz = two_cap; val = two_val }

two-SameNode : (a : ℕ) → has a (1 ∷ addrs example_cells) ≡ true → SameNode example_heap two_heap a
two-SameNode a e =
    let ne7 : a ≢ 7 = ground (arith, e) in
    let ne8 : a ≢ 8 = ground (arith, e) in
    record {
      next = λ j. ground (arith, ne7, ne8);
      cap = ground (arith, ne7, ne8);
      sz = ground (arith, ne7, ne8);
      val = ground (arith, ne7, ne8);
    }

pub two-IsSkipList : IsSkipList two_heap example_list example_cells
two-IsSkipList = IsSkipList-frame two_heap two-SameNode example-IsSkipList

abbrev pub other_list : SkipList ℕ
other_list = record example_list { curlevel = 1; maxlevel = 2; nodenum = 1; header = 7; tail = 8 }

abbrev pub other_cells : Cells ℕ
other_cells = (8, 10) ∷ []

other_chains : (i : ℕ) → i < 2 → Chain two_next 7 i 7 (at two_cap i other_cells)
other_chains zero h = (refl, refl)
other_chains (suc zero) h = refl
other_chains (suc (suc i)) h = absurd (omega arith)

pub other-IsSkipList : IsSkipList two_heap other_list other_cells
other-IsSkipList = record {
  order = compare_numbers-IsOrder;
  magic = refl;
  has_header = λ e. absurd (omega (arith, e));
  small = omega arith;
  top = refl;
  fits = omega arith;
  room = refl;
  apart = (refl, (refl, tt));
  nodes = (record { holds = refl; full = refl; pos = omega arith; low = omega arith }, tt);
  sorted = (tt, tt);
  chains = other_chains;
  count = refl;
  last = refl;
}

abbrev pub example_place : ℕ → ℕ
example_place x = x + 100

abbrev pub example_copy : CopyFunc ℕ
example_copy h x = elim (h.val x) [
  | none ↦ (example_place x, h)
  | some v ↦ (example_place x, put h (example_place x) v)
]

pub example_copy-Copies : Copies example_copy example_place
example_copy-Copies h x v e = rw (example_copy, e)

pub other-IsReady :
    IsReady two_heap
      (1 ∷ addrs example_cells)
      example_place
      example_cells
      two_heap
      other_list
      other_cells
other-IsReady = record {
  inv = other-IsSkipList;
  same = λ a e. record { next = λ j. refl; cap = refl; sz = refl; val = refl };
  apart = λ a e. ground (arith, e);
  spare = (
    record { real = omega arith; apart = omega arith; out = refl; outside = refl },
    (record { real = omega arith; apart = omega arith; out = refl; outside = refl }, tt),
  );
  distinct = (refl, (refl, tt));
  fits = omega arith;
}
