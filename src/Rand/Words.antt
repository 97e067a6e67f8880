-- ===== src/Rand/Words.antt =====
-- The values of the words of the generator of src/private/skl_rand.c, which are of type `uint32`.
use myskl.Prelude.{
  ℕ, zero, suc, ◌+◌, ◌-◌, ◌*◌, ◌/◌, ◌%◌, ◌^◌, ◌<◌, true, false, List, [], ◌∷◌, arith, All, set, leb,
  if◌then◌else◌, Bool-cases, inl, inr, max, bit_xor, bit_and, Bool,
}
use myskl.Rand.{
  SklRand, rand_n, rand_m, word, seed_words, rand_set_seed, mag01, join_bits, upper_mask,
  lower_mask, twist_word, twist_words, twist, temper, rand_int, yield_integer32, next_index,
  mix_seed, mix_again, rand_set_seed_array,
}
use myskl.Rand.Digits.{bit_xor-lt, bit_or-lt, bit_and-lt}

-- A value of type `uint32`
abbrev pub IsUint32 : ℕ → Type 0
IsUint32 w = w < 2 ^ 32

abbrev pub AllUint32 : List ℕ → Type 0
AllUint32 = All IsUint32

word-IsUint32 : (mt : List ℕ) (i : ℕ) → AllUint32 mt → IsUint32 (word mt i)
unfolding word
word-IsUint32 [] i all = omega arith
word-IsUint32 (w ∷ mt) zero all = all.0
word-IsUint32 (w ∷ mt) (suc i) all = word-IsUint32 mt i all.1

set-AllUint32 : (mt : List ℕ) (i w : ℕ) → IsUint32 w → AllUint32 mt → AllUint32 (set mt i w)
set-AllUint32 [] i w h all = tt
set-AllUint32 (v ∷ mt) zero w h all = (h, all.1)
set-AllUint32 (v ∷ mt) (suc i) w h all = (all.0, set-AllUint32 mt i w h all.1)

seed_words-AllUint32 : (n prev i : ℕ) → AllUint32 (seed_words n prev i)
unfolding seed_words
seed_words-AllUint32 zero prev i = tt
seed_words-AllUint32 (suc n) prev i = (omega arith, seed_words-AllUint32 n _ (i + 1))

rand_set_seed-AllUint32 : (seed : ℕ) → IsUint32 seed → AllUint32 (rand_set_seed seed).mt
unfolding rand_set_seed
rand_set_seed-AllUint32 seed h = (h, seed_words-AllUint32 (rand_n - 1) seed 1)

mag01-IsUint32 : (b : ℕ) → IsUint32 (mag01 b)
unfolding mag01
mag01-IsUint32 zero = omega arith
mag01-IsUint32 (suc b) = omega arith

join_bits-IsUint32 : (a b : ℕ) → IsUint32 a → IsUint32 b → IsUint32 (join_bits a b)
unfolding join_bits
join_bits-IsUint32 a b p q =
    bit_or-lt 32 _ _ (bit_and-lt 32 a upper_mask p (omega arith))
      (bit_and-lt 32 b lower_mask q (omega arith))

twist_word-AllUint32 :
    (mt : List ℕ) (k j from : ℕ) → AllUint32 mt → AllUint32 (twist_word mt k j from)
unfolding twist_word
twist_word-AllUint32 mt k j from all =
    let y = join_bits (word mt k) (word mt j) in
    let low =
      join_bits-IsUint32 (word mt k) (word mt j) (word-IsUint32 mt k all)
        (word-IsUint32 mt j all) in
    set-AllUint32 mt k _
      (bit_xor-lt 32 _ _
        (bit_xor-lt 32 (word mt from) (y / 2) (word-IsUint32 mt from all) (omega arith))
        (mag01-IsUint32 (bit_and y 1)))
      all

twist_words-AllUint32 :
    (n k from : ℕ) (mt : List ℕ) → AllUint32 mt → AllUint32 (twist_words n k from mt)
unfolding twist_words
twist_words-AllUint32 zero k from mt all = all
twist_words-AllUint32 (suc n) k from mt all =
    twist_words-AllUint32 n (k + 1) (from + 1) _ (twist_word-AllUint32 mt k (k + 1) from all)

twist-AllUint32 : (mt : List ℕ) → AllUint32 mt → AllUint32 (twist mt)
unfolding twist
twist-AllUint32 mt all = twist_word-AllUint32 _ (rand_n - 1) 0 (rand_m - 1) (
    twist_words-AllUint32 (rand_m - 1) (rand_n - rand_m) 0 _
      (twist_words-AllUint32 (rand_n - rand_m) 0 rand_m mt all))

temper-IsUint32 : (y : ℕ) → IsUint32 y → IsUint32 (temper y)
unfolding temper
temper-IsUint32 y h =
    let y1 = bit_xor y (y / 2 ^ 11) in
    let h1 : y1 < 2 ^ 32 = bit_xor-lt 32 y (y / 2 ^ 11) h (omega arith) in
    let low = bit_and (y1 * 2 ^ 7 % 2 ^ 32) 0x9d2c5680 in
    let y2 = bit_xor y1 low in
    let h2 : y2 < 2 ^ 32 =
      bit_xor-lt 32 y1 low h1
        (bit_and-lt 32 (y1 * 2 ^ 7 % 2 ^ 32) 0x9d2c5680 (omega arith) (omega arith)) in
    let high = bit_and (y2 * 2 ^ 15 % 2 ^ 32) 0xefc60000 in
    let y3 = bit_xor y2 high in
    let h3 : y3 < 2 ^ 32 =
      bit_xor-lt 32 y2 high h2
        (bit_and-lt 32 (y2 * 2 ^ 15 % 2 ^ 32) 0xefc60000 (omega arith) (omega arith)) in
    bit_xor-lt 32 y3 (y3 / 2 ^ 18) h3 (omega (arith, h3))

next_index-AllUint32 : (mt : List ℕ) (i : ℕ) → AllUint32 mt → AllUint32 (next_index mt i).0
unfolding next_index
next_index-AllUint32 mt i all = elim (Bool-cases (leb rand_n (i + 1))) [
  | inl round ↦
      rw round (set-AllUint32 mt 0 (word mt (rand_n - 1)) (word-IsUint32 mt (rand_n - 1) all) all)
  | inr onward ↦ rw onward all
]

mix_seed-AllUint32 :
    (seed : List ℕ) (seed_length n i j : ℕ) (mt : List ℕ)
    → AllUint32 mt
    → AllUint32 (mix_seed seed seed_length n i j mt).0
unfolding mix_seed
mix_seed-AllUint32 seed seed_length zero i j mt all = all
mix_seed-AllUint32 seed seed_length (suc n) i j mt all =
    mix_seed-AllUint32 seed seed_length n _ _ _
      (next_index-AllUint32 _ i (set-AllUint32 mt i _ (omega arith) all))

mix_again-AllUint32 : (n i : ℕ) (mt : List ℕ) → AllUint32 mt → AllUint32 (mix_again n i mt)
unfolding mix_again
mix_again-AllUint32 zero i mt all = all
mix_again-AllUint32 (suc n) i mt all =
    mix_again-AllUint32 n _ _ (next_index-AllUint32 _ i (set-AllUint32 mt i _ (omega arith) all))

rand_set_seed_array-AllUint32 :
    (seed : List ℕ) (seed_length : ℕ) → AllUint32 (rand_set_seed_array seed seed_length).mt
unfolding rand_set_seed_array
rand_set_seed_array-AllUint32 seed seed_length =
    let mt = (rand_set_seed 19650218).mt in
    let mixed = mix_seed seed seed_length (max rand_n seed_length) 1 0 mt in
    set-AllUint32 (mix_again (rand_n - 1) mixed.1 mixed.0) 0 0x80000000 (omega arith) (
      mix_again-AllUint32 (rand_n - 1) mixed.1 mixed.0 (
        mix_seed-AllUint32 seed seed_length (max rand_n seed_length) 1 0 mt
          (rand_set_seed-AllUint32 19650218 (omega arith))))

-- The words that a draw reads, filled again with `m` if `b` tells so.
refilled :
    (b : Bool) (r : SklRand) (m : List ℕ)
    → AllUint32 m
    → AllUint32 r.mt
    → let r' : SklRand = if b then record { mt = m; mti = 0 } else r in AllUint32 r'.mt
refilled true r m new old = new
refilled false r m new old = old

yield_integer32-IsUint32 :
    (r : SklRand)
    → AllUint32 r.mt
    → IsUint32 (yield_integer32 r).0 × AllUint32 (yield_integer32 r).1.mt
unfolding yield_integer32 rand_int
yield_integer32-IsUint32 r all =
    let words = refilled (leb rand_n r.mti) r (twist r.mt) (twist-AllUint32 r.mt all) all in
    (temper-IsUint32 _ (word-IsUint32 _ _ words), words)

-- The first `n` numbers that `RNGyieldInteger32` gives
abbrev pub draws : ℕ → SklRand → List ℕ
draws zero r = []
draws (suc n) r = (yield_integer32 r).0 ∷ draws n (yield_integer32 r).1

draws-AllUint32 : (n : ℕ) (r : SklRand) → AllUint32 r.mt → AllUint32 (draws n r)
draws-AllUint32 zero r all = tt
draws-AllUint32 (suc n) r all =
    let (drawn, words) = yield_integer32-IsUint32 r all in
    (drawn, draws-AllUint32 n (yield_integer32 r).1 words)
