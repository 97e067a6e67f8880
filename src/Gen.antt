-- ===== src/Gen.antt =====
-- The level of a new node: `genLevel` of src/skl_gen.c, in its version with random numbers
-- (MYSKL_USE_RAND).
pub mod Levels
pub mod Counting
use myskl.Prelude.{ℕ, zero, suc, ◌+◌, ◌-◌, ◌*◌, ◌/◌, ◌%◌, ◌^◌, ◌||◌, ltb, if◌then◌else◌}
use myskl.Rand.{rand_max_n, yield_integer32}
use myskl.SkipList.{SkipList}

-- The `for` loop, with the rounds that `lev < maxlevel` leaves; `j <<= 1` on a `uint`. `j` gets 0 in
-- the 32nd round, behind MYSKL_MAXLEVELS: the division by it, which gives 0 here, does not occur.
unfoldable pub gen_loop : ℕ → ℕ → ℕ → ℕ → ℕ → ℕ
gen_loop t curlevel zero lev j = lev
gen_loop t curlevel (suc rest) lev j =
    let up = gen_loop t curlevel rest (lev + 1) (j * 2 % 2 ^ 32) in
    if ltb (rand_max_n / j) t || ltb curlevel lev then lev else up

-- The level and the list, whose generator has moved on.
unfoldable pub gen_level : {D : Type 0} → SkipList D → ℕ × SkipList D
unfolding gen_loop
gen_level l =
    let (t, rng) = yield_integer32 l.rng_item in
    (gen_loop t l.curlevel (l.maxlevel - 1) 1 2, record l { rng_item = rng })
