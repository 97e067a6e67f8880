-- ===== src/Gen/Levels.antt =====
-- The levels that `genLevel` of src/skl_gen.c draws.
use native.Mathlib.Nat.{pow-suc, pow-le-pow_right, one-le-pow}
use myskl.Prelude.{
  ℕ, zero, suc, ◌+◌, ◌-◌, ◌*◌, ◌/◌, ◌%◌, ◌^◌, ◌≤◌, ◌<◌, ◌≡◌, ◌↔◌, ◌||◌, arith, ltb, Bool-cases, inl,
  inr, refl,
}
use myskl.Rand.{rand_max_n, yield_integer32}
use myskl.SkipList.{SkipList, max_levels}
use myskl.Gen.{gen_loop, gen_level}
use native.Mathlib.Numerals.{add-one}
use native.Mathlib.Decide.{ℕ_discrete}

gen_loop_bounds :
    (t cur rest lev j : ℕ)
    → lev ≤ cur + 1
    → (lev ≤ gen_loop t cur rest lev j)
      × (gen_loop t cur rest lev j ≤ lev + rest)
      × (gen_loop t cur rest lev j ≤ cur + 1)
unfolding gen_loop
gen_loop_bounds t cur zero lev j h = ground arith
gen_loop_bounds t cur (suc rest) lev j h =
    ground (arith, gen_loop_bounds t cur rest (lev + 1) (j * 2 % 2 ^ 32))

-- For a list with at least one level, the level that `genLevel` draws is at least 1, at most the
-- list's `maxlevel`, and at most one more than the list's current level.
pub gen_level_bounds :
    {D : Type 0} (l : SkipList D)
    → 1 ≤ l.maxlevel
    → (1 ≤ (gen_level l).0) × ((gen_level l).0 ≤ l.maxlevel) × ((gen_level l).0 ≤ l.curlevel + 1)
unfolding gen_level
gen_level_bounds l h =
    ground (arith, gen_loop_bounds (yield_integer32 l.rng_item).0 l.curlevel (l.maxlevel - 1) 1 2)

div_antitone : (x a b : ℕ) → 0 < a → a ≤ b → x / b ≤ x / a
div_antitone x a b p h = grind arith

shift_left : (lev : ℕ) → lev < 31 → 2 ^ lev * 2 % 2 ^ 32 ≡ 2 ^ (lev + 1)
shift_left lev h =
    let small : 2 ^ suc lev ≤ 2 ^ 31 = pow-le-pow_right (omega arith) h in
    rw add-one (omega (arith, pow-suc 2 lev))

-- The more levels, the fewer draws reach them.
chance_antitone : (t lev k : ℕ) → lev ≤ k → t ≤ rand_max_n / 2 ^ k → t ≤ rand_max_n / 2 ^ lev
chance_antitone t lev k le h = omega (
  arith,
  div_antitone rand_max_n (2 ^ lev) (2 ^ k) (one-le-pow lev 2 (omega arith))
      (pow-le-pow_right (omega arith) le),
)

-- Whether the loop goes beyond level `k`, told from the drawn number at once.
gen_loop_threshold :
    (t cur k rest lev j : ℕ)
    → j ≡ 2 ^ lev
    → lev + rest ≤ 31
    → lev ≤ k
    → lev ≤ cur + 1
    → (k < gen_loop t cur rest lev j) ↔ ((k < lev + rest) × (k ≤ cur) × (t ≤ rand_max_n / 2 ^ k))
unfolding gen_loop
gen_loop_threshold t cur k zero lev j e small le c =
    (λ h. absurd (omega arith), λ h. absurd (omega arith))
gen_loop_threshold t cur k (suc rest) lev j e small le c =
    rw e (elim (Bool-cases (ltb (rand_max_n / 2 ^ lev) t || ltb cur lev)) [
      | inl stop ↦
          rw stop (
            λ h. absurd (omega arith),
            λ h. absurd (ground (arith, chance_antitone t lev k le h.2)),
          )
      | inr more ↦ rw more (elim (ℕ_discrete k lev) [
        | yes here ↦ (
          λ h. (omega arith, ground arith, rw here (ground arith)),
          λ h.
              omega
                (arith, gen_loop_bounds t cur rest (lev + 1) (2 ^ lev * 2 % 2 ^ 32) (ground arith)),
        )
        | no above ↦
            let ih =
              gen_loop_threshold t cur k rest (lev + 1) (2 ^ lev * 2 % 2 ^ 32)
                (shift_left lev (omega arith)) (omega arith) (omega arith) (ground arith) in
            (λ h. ground (arith, ih.0 h), λ h. ih.1 (omega arith, h.1, h.2))
      ])
    ])

-- For a list with 1 to MYSKL_MAXLEVELS levels and for `k` from 1 on, the level that `genLevel`
-- draws is above `k` exactly if `k` is below the list's `maxlevel` and at most its current level,
-- and the number drawn is at most RAND_MAX_N / 2 ^ k: each further level has half the chance of
-- the one before.
pub gen_level_threshold :
    {D : Type 0} (l : SkipList D) (k : ℕ)
    → 1 ≤ k
    → 1 ≤ l.maxlevel
    → l.maxlevel ≤ max_levels
    → (k < (gen_level l).0) ↔ (
        (k < l.maxlevel) × (k ≤ l.curlevel) × ((yield_integer32 l.rng_item).0 ≤ rand_max_n / 2 ^ k))
unfolding gen_level
gen_level_threshold l k pos m small =
    let t = (yield_integer32 l.rng_item).0 in
    let (to, from) =
      gen_loop_threshold t l.curlevel k (l.maxlevel - 1) 1 2 refl (omega arith) pos (omega arith) in
    (λ h. ground (arith, to h), λ h. from (omega arith, h.1, h.2))
