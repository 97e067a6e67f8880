-- ===== src/Gen/Counting.antt =====
-- `genLevel` of src/skl_gen.c in its version without random numbers (MYSKL_NO_RAND), which counts
-- the nodes of each level in `nodenumelem`.
use myskl.Prelude.{
  ℕ, zero, suc, ◌+◌, ◌-◌, ◌*◌, ◌^◌, ◌%◌, ◌≤◌, ◌<◌, ◌≡◌, refl, true, false, Option, some, none,
  arith, ltb, ◌==◌, ◌>>=◌, if◌then◌else◌, ◌⊎◌, inl, inr, Bool-cases, subst,
}
use myskl.Heap.{update}
use myskl.SkipList.{max_levels}

-- The loop, with the rounds that are left up to `maxlevel`; `nodenumelem` has MYSKL_MAXLEVELS
-- entries. The double `z` is `nodenum / 2 ^ lev`, which it holds without rounding.
unfoldable pub count_loop : ℕ → (ℕ → ℕ) → ℕ → ℕ → Option ℕ
count_loop nodenum nodenumelem zero lev = some lev
count_loop nodenum nodenumelem (suc rest) lev =
    let up = count_loop nodenum nodenumelem rest (lev + 1) in
    if ltb lev max_levels
    then (if ltb (nodenumelem lev * 2 ^ lev) nodenum then some lev else up)
    else none

-- The level and the counts of nodes
unfoldable pub count_level : ℕ → ℕ → (ℕ → ℕ) → Option (ℕ × (ℕ → ℕ))
count_level nodenum maxlevel nodenumelem = if nodenum == 0 then some (1, nodenumelem) else (do
  lev ← count_loop nodenum nodenumelem (maxlevel - 1) 1
  if ltb lev max_levels
      then some (lev, update nodenumelem lev ((nodenumelem lev + 1) % 2 ^ 32))
      else none)

module _ (nodenum : ℕ) (nodenumelem : ℕ → ℕ) where
  -- The levels from `low` on and below `high` have their share of the nodes.
  abbrev pub Full : ℕ → ℕ → Type 0
  Full low high = (k : ℕ) → low ≤ k → k < high → nodenum ≤ nodenumelem k * 2 ^ k

  count_loop_lem :
      (rest lev : ℕ)
      → lev + rest ≤ max_levels
      → (lev' : ℕ) × (count_loop nodenum nodenumelem rest lev ≡ some lev')
        × (lev ≤ lev')
        × (lev' ≤ lev + rest)
        × Full lev lev'
        × ((lev' ≡ lev + rest) ⊎ (nodenumelem lev' * 2 ^ lev' < nodenum))
  unfolding count_loop
  count_loop_lem zero lev small =
      (lev, refl, omega arith, omega arith, (λ k low high. absurd (omega arith)), inl (omega arith))
  count_loop_lem (suc rest) lev small =
      let inside : ltb lev max_levels ≡ true = ground arith in
      elim (Bool-cases (ltb (nodenumelem lev * 2 ^ lev) nodenum)) [
        | inl below ↦ (
          lev,
          rw (inside, below),
          omega arith,
          omega arith,
          (λ k low high. absurd (omega arith)),
          inr (ground arith),
        )
        | inr full ↦
            let (lev', run, low', high', all, ended) =
              count_loop_lem rest (lev + 1) (omega arith) in
            (
              lev',
              rw (inside, full) run,
              omega arith,
              omega arith,
              (λ k low high. elim (Bool-cases (k == lev)) [
                | inl here ↦
                    let same : lev ≡ k = ground (arith, here) in
                    let share : nodenum ≤ nodenumelem lev * 2 ^ lev = ground (arith, full) in
                    subst (λ j. nodenum ≤ nodenumelem j * 2 ^ j) same share
                | inr above ↦ all k (ground arith) high
              ]),
              omega (arith, ended),
            )
      ]

  -- On a list with nodes and with from 1 to MYSKL_MAXLEVELS levels at most, `genLevel` without random
  -- numbers does one of two things, which exclude each other. It chooses a level below
  -- MYSKL_MAXLEVELS, the lowest that does not have its share of the nodes, or the highest when all
  -- below it have, and counts one node more there. Or the list may have MYSKL_MAXLEVELS levels, all
  -- levels below that have their share, and it writes behind the end of `nodenumelem`.
  pub count_level_lem :
      (maxlevel : ℕ)
      → 0 < nodenum
      → 1 ≤ maxlevel
      → maxlevel ≤ max_levels
      → ((lev : ℕ) × (count_level nodenum maxlevel nodenumelem
            ≡ some (lev, update nodenumelem lev ((nodenumelem lev + 1) % 2 ^ 32)))
          × (1 ≤ lev)
          × (lev ≤ maxlevel)
          × (lev < max_levels)
          × Full 1 lev
          × ((lev ≡ maxlevel) ⊎ (nodenumelem lev * 2 ^ lev < nodenum)))
        ⊎ ((count_level nodenum maxlevel nodenumelem ≡ none)
            × (maxlevel ≡ max_levels)
            × Full 1 max_levels)
  unfolding count_level
  count_level_lem maxlevel some_node pos small =
      let filled : (nodenum == 0) ≡ false = ground arith in
      let (lev, run, low, high, full, ended) = count_loop_lem (maxlevel - 1) 1 (omega arith) in
      elim (Bool-cases (ltb lev max_levels)) [
        | inl inside ↦ inl (
          lev,
          rw (filled, run, ◌>>=◌, inside),
          low,
          omega arith,
          ground (arith, inside),
          full,
          omega (arith, ended),
        )
        | inr outside ↦ inr (
          rw (filled, run, ◌>>=◌, outside),
          ground arith,
          λ k low' high'. full k low' (ground arith),
        )
      ]
