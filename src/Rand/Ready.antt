-- ===== src/Rand/Ready.antt =====
-- The array of the generator of src/private/skl_rand.c and the index into it.
use myskl.Prelude.{
  ℕ, zero, suc, ◌+◌, ◌-◌, ◌≤◌, ◌≡◌, refl, ◌∙◌, ap, true, false, List, arith, length, length-set,
  set, leb, if◌then◌else◌, Bool-cases, inl, inr, max, Bool,
}
use myskl.Rand.{
  SklRand, rand_n, rand_m, seed_words, rand_set_seed, twist_word, twist_words, twist, rand_int,
  yield_integer32, next_index, mix_seed, mix_again, rand_set_seed_array,
}

-- The array has its RAND_N words, and the index is not behind its end.
pub record IsReady (r : SklRand) : Type 0 where
  pub words : length r.mt ≡ rand_n
  pub index : r.mti ≤ rand_n

length-seed_words : (n prev i : ℕ) → length (seed_words n prev i) ≡ n
unfolding seed_words
length-seed_words zero prev i = refl
length-seed_words (suc n) prev i = ap suc (length-seed_words n _ (i + 1))

length-twist_word : (mt : List ℕ) (k j from : ℕ) → length (twist_word mt k j from) ≡ length mt
unfolding twist_word
length-twist_word mt k j from = length-set mt k _

length-twist_words : (n k from : ℕ) (mt : List ℕ) → length (twist_words n k from mt) ≡ length mt
unfolding twist_words
length-twist_words zero k from mt = refl
length-twist_words (suc n) k from mt =
    length-twist_words n (k + 1) (from + 1) (twist_word mt k (k + 1) from)
    ∙ length-twist_word mt k (k + 1) from

length-twist : (mt : List ℕ) → length (twist mt) ≡ length mt
unfolding twist
length-twist mt =
    let front = twist_words (rand_n - rand_m) 0 rand_m mt in
    let back = twist_words (rand_m - 1) (rand_n - rand_m) 0 front in
    length-twist_word back (rand_n - 1) 0 (rand_m - 1)
    ∙ length-twist_words (rand_m - 1) (rand_n - rand_m) 0 front
    ∙ length-twist_words (rand_n - rand_m) 0 rand_m mt

length-next_index : (mt : List ℕ) (i : ℕ) → length (next_index mt i).0 ≡ length mt
unfolding next_index
length-next_index mt i = elim (Bool-cases (leb rand_n (i + 1))) [
  | inl round ↦ rw round (length-set mt 0 _)
  | inr onward ↦ rw onward refl
]

length-mix_seed :
    (seed : List ℕ) (seed_length n i j : ℕ) (mt : List ℕ)
    → length (mix_seed seed seed_length n i j mt).0 ≡ length mt
unfolding mix_seed
length-mix_seed seed seed_length zero i j mt = refl
length-mix_seed seed seed_length (suc n) i j mt =
    length-mix_seed seed seed_length n _ _ (next_index (set mt i _) i).0
    ∙ length-next_index (set mt i _) i
    ∙ length-set mt i _

length-mix_again : (n i : ℕ) (mt : List ℕ) → length (mix_again n i mt) ≡ length mt
unfolding mix_again
length-mix_again zero i mt = refl
length-mix_again (suc n) i mt =
    length-mix_again n _ (next_index (set mt i _) i).0
    ∙ length-next_index (set mt i _) i
    ∙ length-set mt i _

length-rand_set_seed : (seed : ℕ) → length (rand_set_seed seed).mt ≡ rand_n
unfolding rand_set_seed
length-rand_set_seed seed = ap suc (length-seed_words (rand_n - 1) seed 1)

pub mti-rand_set_seed : (seed : ℕ) → (rand_set_seed seed).mti ≡ rand_n
unfolding rand_set_seed
mti-rand_set_seed seed = refl

-- A generator that has been seeded by a number, or by an array of numbers, has all its words, and its
-- index is not behind their end.
pub rand_set_seed-IsReady :
    (seed : ℕ) (seeds : List ℕ) (seed_length : ℕ)
    → IsReady (rand_set_seed seed) × IsReady (rand_set_seed_array seeds seed_length)
unfolding rand_set_seed_array
rand_set_seed-IsReady seed seeds seed_length =
    let r = rand_set_seed 19650218 in
    let rounds = max rand_n seed_length in
    let mixed = mix_seed seeds seed_length rounds 1 0 r.mt in
    (
      record { words = length-rand_set_seed seed; index = omega (arith, mti-rand_set_seed seed) },
      record {
        words =
            length-set (mix_again (rand_n - 1) mixed.1 mixed.0) 0 0x80000000
            ∙ length-mix_again (rand_n - 1) mixed.1 mixed.0
            ∙ length-mix_seed seeds seed_length rounds 1 0 r.mt
            ∙ length-rand_set_seed 19650218;
        index = omega (arith, mti-rand_set_seed 19650218);
      },
    )

not_used : (i : ℕ) → leb rand_n i ≡ false → i + 1 ≤ rand_n
not_used i e = ground arith

-- The array, filled again with `m` if `b` tells so, and the index.
refilled :
    (b : Bool) (r : SklRand) (m : List ℕ)
    → length m ≡ rand_n
    → IsReady r
    → (b ≡ false → r.mti + 1 ≤ rand_n)
    → let r' : SklRand = if b then record { mt = m; mti = 0 } else r in
      (length r'.mt ≡ rand_n) × (r'.mti + 1 ≤ rand_n)
refilled true r m full ready more = (full, omega arith)
refilled false r m full ready more = (ready.words, more refl)

-- A draw from a generator that has all its words, with an index not behind their end, leaves such a
-- generator, whose index is above 0: it is behind the word that was read.
yield_integer32-IsReady :
    (r : SklRand) → IsReady r → IsReady (yield_integer32 r).1 × (1 ≤ (yield_integer32 r).1.mti)
unfolding yield_integer32 rand_int
yield_integer32-IsReady r ready =
    let (words, index) =
      refilled (leb rand_n r.mti) r (twist r.mt) (length-twist r.mt ∙ ready.words) ready
        (λ more. not_used r.mti more) in
    (record { words = words; index = index }, omega arith)
