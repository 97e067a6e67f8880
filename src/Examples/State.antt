-- ===== src/Examples/State.antt =====
-- The list 10, 20 of numbers at the nodes 2 and 3 (one and two levels), its header at address 1, and
-- the nodes 4 with the number 15 and 5 with the number 10, which are
-- not in it.
use myskl.Prelude.{
  ℕ, zero, suc, ◌<◌, refl, true, Option, none, some, [], ◌∷◌, Ordering, arith, false, ltb,
}
use Prim.Native.Nat.{compare}
use myskl.Heap.{Heap}
use myskl.SkipList.{SkipList, list_magic}
use myskl.SkipList.Cells.{Cells, IsOrder, at}
use myskl.SkipList.Invariant.{IsSkipList}
use myskl.Insert.Plain.{IsFresh}
use myskl.Heap.Chain.{Chain}
use myskl.SkipList.Frame.{IsSkipList-frame}

abbrev pub compare_numbers : ℕ → ℕ → Ordering
compare_numbers a b = compare a b

pub compare_numbers-IsOrder : IsOrder compare_numbers
compare_numbers-IsOrder = record {
  lt_asymm = λ a b h. ground arith;
  gt_asymm = λ a b h. ground arith;
  le_trans = λ a b c h k. ground arith;
}

abbrev pub example_next : ℕ → ℕ → ℕ
example_next (suc zero) zero = 2
example_next (suc zero) (suc zero) = 3
example_next (suc (suc zero)) zero = 3
example_next _ _ = 1

abbrev pub example_cap : ℕ → ℕ
example_cap (suc zero) = 3
example_cap (suc (suc zero)) = 1
example_cap (suc (suc (suc zero))) = 2
example_cap _ = 0

abbrev pub example_val : ℕ → Option ℕ
example_val (suc (suc zero)) = some 10
example_val (suc (suc (suc zero))) = some 20
example_val (suc (suc (suc (suc zero)))) = some 15
example_val (suc (suc (suc (suc (suc zero))))) = some 10
example_val _ = none

abbrev pub example_heap : Heap ℕ
example_heap = record {
  next = example_next;
  cap = example_cap;
  sz = example_cap;
  val = example_val;
  avail = λ k. true;
  stat = record { calls = 6; alloc_count = 6; freed_count = 0 };
}

abbrev pub example_list : SkipList ℕ
example_list = record {
  magic = list_magic;
  cmp = compare_numbers;
  dst = true;
  rng_item = record { mt = 0x2545f491 ∷ 0x4f6cdd1d ∷ []; mti = 0 };
  curlevel = 2;
  maxlevel = 3;
  nodenum = 2;
  header = 1;
  tail = 3;
}

abbrev pub example_cells : Cells ℕ
example_cells = (2, 10) ∷ (3, 20) ∷ []

example_chains : (i : ℕ) → i < 3 → Chain example_next 1 i 1 (at example_cap i example_cells)
example_chains zero h = (refl, (refl, refl))
example_chains (suc zero) h = (refl, refl)
example_chains (suc (suc zero)) h = refl
example_chains (suc (suc (suc i))) h = absurd (omega arith)

pub example-IsSkipList : IsSkipList example_heap example_list example_cells
example-IsSkipList = record {
  order = compare_numbers-IsOrder;
  magic = refl;
  has_header = λ e. absurd (omega (arith, e));
  small = omega arith;
  top = refl;
  fits = omega arith;
  room = refl;
  apart = (refl, (refl, (refl, tt)));
  nodes = (
    record { holds = refl; full = refl; pos = omega arith; low = omega arith },
    (record { holds = refl; full = refl; pos = omega arith; low = omega arith }, tt),
  );
  sorted = ((ground arith, tt), (tt, tt));
  chains = example_chains;
  count = refl;
  last = refl;
}

pub fifteen-IsFresh : IsFresh example_heap example_list example_cells 4 15
fifteen-IsFresh = record { apart = omega arith; out = refl; holds = refl }

-- The same with no memory left.
abbrev pub full_heap : Heap ℕ
full_heap = record example_heap { avail = λ k. false }

pub full-IsSkipList : IsSkipList full_heap example_list example_cells
full-IsSkipList =
    IsSkipList-frame full_heap
      (λ a e. record { next = λ j. refl; cap = refl; sz = refl; val = refl }) example-IsSkipList

pub full-IsFresh : IsFresh full_heap example_list example_cells 4 15
full-IsFresh = record { apart = omega arith; out = refl; holds = refl }

-- The second of the next allocations fails.
abbrev pub short_heap : Heap ℕ
short_heap = record example_heap { avail = λ k. ltb k 7 }
