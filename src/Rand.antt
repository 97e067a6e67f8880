-- ===== src/Rand.antt =====
-- The generator of src/private/skl_rand.c (the Mersenne Twister MT19937), with the constants of
-- include/private/skl_rand.h. A `uint32` is a number below 2 ^ 32, its wrap-around written out.
pub mod Ready
pub mod Digits
pub mod Words
pub mod Register
pub mod Twister
use myskl.Prelude.{
  ℕ, zero, suc, ◌+◌, ◌-◌, ◌*◌, ◌/◌, ◌%◌, ◌^◌, bit_and, bit_xor, bit_or, List, [], ◌∷◌, leb, max,
  Bool, Option, some, none, if◌then◌else◌, get_or, set,
}

-- RAND_N and M
abbrev pub rand_n : ℕ
rand_n = 624

abbrev pub rand_m : ℕ
rand_m = 397

abbrev pub rand_max_n : ℕ
rand_max_n = 0xffffffff

abbrev pub upper_mask : ℕ
upper_mask = 0x80000000

abbrev pub lower_mask : ℕ
lower_mask = 0x7fffffff

abbrev pub seed_value : ℕ
seed_value = 0x1571

-- `struct _sklRand`
pub record SklRand : Type 0 where
  pub mt : List ℕ
  pub mti : ℕ

-- `randi->mt[ i ]`, 0 for an index behind the end
unfoldable pub word : List ℕ → ℕ → ℕ
word mt i = get_or mt i 0

-- The loop of `rand_set_seed`: the `n` words from index `i` on, behind the word `prev`.
unfoldable pub seed_words : ℕ → ℕ → ℕ → List ℕ
seed_words zero prev i = []
seed_words (suc n) prev i =
    let w = (1812433253 * bit_xor prev (prev / 2 ^ 30) + i) % 2 ^ 32 in w ∷ seed_words n w (i + 1)

unfoldable pub rand_set_seed : ℕ → SklRand
unfolding seed_words
rand_set_seed seed = record { mt = seed ∷ seed_words (rand_n - 1) seed 1; mti = rand_n }

-- `mag01[ y & 0x1 ]`
unfoldable pub mag01 : ℕ → ℕ
mag01 zero = 0
mag01 (suc _) = 0x9908b0df

-- `( a & UPPER_MASK ) | ( b & LOWER_MASK )`
unfoldable pub join_bits : ℕ → ℕ → ℕ
join_bits a b = bit_or (bit_and a upper_mask) (bit_and b lower_mask)

-- `mt[ k ] = mt[ from ] ^ ( y >> 1 ) ^ mag01[ y & 0x1 ]`, for the `y` of words `k` and `j`
unfoldable pub twist_word : List ℕ → ℕ → ℕ → ℕ → List ℕ
unfolding word mag01 join_bits
twist_word mt k j from =
    let y = join_bits (word mt k) (word mt j) in
    set mt k (bit_xor (bit_xor (word mt from) (y / 2)) (mag01 (bit_and y 1)))

-- A `for` loop over `kk`, `n` rounds: word `kk` from word `from`, both indices rising.
unfoldable pub twist_words : ℕ → ℕ → ℕ → List ℕ → List ℕ
unfolding twist_word
twist_words zero kk from mt = mt
twist_words (suc n) kk from mt = twist_words n (kk + 1) (from + 1) (twist_word mt kk (kk + 1) from)

-- Generates all the words at one time.
unfoldable pub twist : List ℕ → List ℕ
unfolding twist_words
twist mt =
    let front = twist_words (rand_n - rand_m) 0 rand_m mt in
    let back = twist_words (rand_m - 1) (rand_n - rand_m) 0 front in
    twist_word back (rand_n - 1) 0 (rand_m - 1)

-- The tempering at the end of `rand_int`.
unfoldable pub temper : ℕ → ℕ
temper y0 =
    let y1 = bit_xor y0 (y0 / 2 ^ 11) in
    let y2 = bit_xor y1 (bit_and (y1 * 2 ^ 7 % 2 ^ 32) 0x9d2c5680) in
    let y3 = bit_xor y2 (bit_and (y2 * 2 ^ 15 % 2 ^ 32) 0xefc60000) in bit_xor y3 (y3 / 2 ^ 18)

unfoldable pub rand_int : SklRand → ℕ × SklRand
unfolding word twist temper
rand_int r =
    let r' = if leb rand_n r.mti then record { mt = twist r.mt; mti = 0 } else r in
    (temper (word r'.mt r'.mti), record r' { mti = r'.mti + 1 })

-- `RNGyieldInteger32`, of a generator that is not NULL
unfoldable pub yield_integer32 : SklRand → ℕ × SklRand
unfolding rand_int
yield_integer32 r = rand_int r

-- `i++; if ( i >= RAND_N ) { mt[ 0 ] = mt[ RAND_N - 1 ]; i = 1; }`: the words and the index.
unfoldable pub next_index : List ℕ → ℕ → List ℕ × ℕ
unfolding word
next_index mt i = if leb rand_n (i + 1) then (set mt 0 (word mt (rand_n - 1)), 1) else (mt, i + 1)

-- `mt[ i ] ^ ( ( mt[ i - 1 ] ^ ( mt[ i - 1 ] >> 30 ) ) * factor )`, of which only the low 32 bits
-- are used.
unfoldable pub mix_word : List ℕ → ℕ → ℕ → ℕ
unfolding word
mix_word mt i factor =
    let before = word mt (i - 1) in
    bit_xor (word mt i) (bit_xor before (before / 2 ^ 30) * factor % 2 ^ 32)

-- The first loop of `rand_set_seed_array`, `n` rounds: the words and the index `i`.
unfoldable pub mix_seed : List ℕ → ℕ → ℕ → ℕ → ℕ → List ℕ → List ℕ × ℕ
unfolding next_index mix_word
mix_seed seed seed_length zero i j mt = (mt, i)
mix_seed seed seed_length (suc n) i j mt =
    let w = (mix_word mt i 1664525 + get_or seed j 0 + j) % 2 ^ 32 in
    let (mt', i') = next_index (set mt i w) i in
    mix_seed seed seed_length n i' (if leb seed_length (j + 1) then 0 else j + 1) mt'

-- Its second loop, `n` rounds.
unfoldable pub mix_again : ℕ → ℕ → List ℕ → List ℕ
unfolding next_index mix_word
mix_again zero i mt = mt
mix_again (suc n) i mt =
    let w = (mix_word mt i 1566083941 + 2 ^ 32 - i) % 2 ^ 32 in
    let (mt', i') = next_index (set mt i w) i in mix_again n i' mt'

unfoldable pub rand_set_seed_array : List ℕ → ℕ → SklRand
unfolding rand_set_seed mix_seed mix_again
rand_set_seed_array seed seed_length =
    let r = rand_set_seed 19650218 in
    let (mt, i) = mix_seed seed seed_length (max rand_n seed_length) 1 0 r.mt in
    record r { mt = set (mix_again (rand_n - 1) i mt) 0 0x80000000 }

-- `newRNG_withSeed`: the generator, none if `given`, whether its allocation succeeds, is false.
unfoldable pub new_rng_with_seed : Bool → ℕ → Option SklRand
unfolding rand_set_seed
new_rng_with_seed given seed = if given then some (rand_set_seed seed) else none

-- `newRNG_withSeedArray`, which wants a seed at least
unfoldable pub new_rng_with_seed_array : Bool → List ℕ → ℕ → Option SklRand
unfolding rand_set_seed_array
new_rng_with_seed_array given seed seed_length =
    if leb 1 seed_length
    then if given then some (rand_set_seed_array seed seed_length) else none
    else none
