-- ===== src/Rand/Twister.antt =====
-- The generator of src/private/skl_rand.c, which fills its array with new words at one time, beside
-- the register of Register.
use myskl.Prelude.{
  ℕ, zero, suc, ◌+◌, ◌-◌, ◌*◌, ◌/◌, ◌%◌, ◌^◌, ◌<◌, ◌≤◌, ◌≡◌, ◌≢◌, refl, sym, ap, subst, ◌∙◌, true,
  false, List, [], ◌∷◌, arith, length, length-set, set, leb, Bool-cases, inl, inr, Bool, bit_and,
  bit_xor, if◌then◌else◌, ◌==◌,
}
use myskl.Rand.{
  SklRand, rand_n, rand_m, word, seed_words, rand_set_seed, mag01, join_bits, twist_word,
  twist_words, twist, temper, rand_int, yield_integer32, rand_set_seed_array,
}
use myskl.Rand.Register.{
  mt19937, recurrence, register, tempered, outputs, seeded, run, register-last, register-run,
  outputs-same, run-recurrence,
}
use myskl.Rand.Words.{draws}
use myskl.Rand.Ready.{rand_set_seed-IsReady, mti-rand_set_seed}

word-set_self : (mt : List ℕ) (k v : ℕ) → k < length mt → word (set mt k v) k ≡ v
unfolding word
word-set_self [] k v low = absurd (omega arith)
word-set_self (w ∷ mt) zero v low = refl
word-set_self (w ∷ mt) (suc k) v low = word-set_self mt k v (omega arith)

word-set_ne : (mt : List ℕ) (k j v : ℕ) → j ≢ k → word (set mt k v) j ≡ word mt j
unfolding word
word-set_ne [] k j v ne = refl
word-set_ne (w ∷ mt) zero zero v ne = absurd (ne refl)
word-set_ne (w ∷ mt) zero (suc j) v ne = refl
word-set_ne (w ∷ mt) (suc k) zero v ne = refl
word-set_ne (w ∷ mt) (suc k) (suc j) v ne = word-set_ne mt k j v (λ e. ne (ap suc e))

mag01_lem : (b : ℕ) → mag01 b ≡ (if b == 0 then 0 else 0x9908b0df)
unfolding mag01
mag01_lem zero = refl
mag01_lem (suc b) = ground arith

-- The word that `twist_word` writes is the register's new one.
new_word-recurrence :
    (mt : List ℕ) (k j from : ℕ)
    → k < length mt
    → word (twist_word mt k j from) k ≡ recurrence mt19937 (word mt k) (word mt j) (word mt from)
unfolding twist_word recurrence mt19937 join_bits
new_word-recurrence mt k j from low =
    word-set_self mt k _ low
    ∙ ap (λ g. bit_xor (bit_xor (word mt from) (join_bits (word mt k) (word mt j) / 2)) g)
        (mag01_lem (bit_and (join_bits (word mt k) (word mt j)) 1))

temper-tempered : (y : ℕ) → temper y ≡ tempered mt19937 y
unfolding temper tempered mt19937
temper-tempered y = refl

twist_word_ne : (mt : List ℕ) (k j from i : ℕ) → i ≢ k → word (twist_word mt k j from) i ≡ word mt i
unfolding twist_word
twist_word_ne mt k j from i ne = word-set_ne mt k i _ ne

length-twist_word : (mt : List ℕ) (k j from : ℕ) → length (twist_word mt k j from) ≡ length mt
unfolding twist_word
length-twist_word mt k j from = length-set mt k _

module _ (x : ℕ → ℕ)
    (next : (k : ℕ) → x (k + rand_n) ≡ recurrence mt19937 (x k) (x (k + 1)) (x (k + rand_m))) where
  -- The words below `k` are those of the sequence `x` behind the ones from `base` on, which the
  -- others still are.
  record Mixed (base k : ℕ) (mt : List ℕ) : Type 0 where
    words : length mt ≡ rand_n
    new : (j : ℕ) → j < k → word mt j ≡ x (base + rand_n + j)
    old : (j : ℕ) → k ≤ j → j < rand_n → word mt j ≡ x (base + j)

  twist_word-Mixed :
      {base k : ℕ} {mt : List ℕ} (j from : ℕ)
      → k < rand_n
      → word mt j ≡ x (base + k + 1)
      → word mt from ≡ x (base + k + rand_m)
      → Mixed base k mt
      → Mixed base (k + 1) (twist_word mt k j from)
  twist_word-Mixed {base} {k} {mt} j from low second middle mixed =
      let first : word mt k ≡ x (base + k) = mixed.old k (omega arith) low in
      let here : word (twist_word mt k j from) k ≡ x (base + rand_n + k) =
        new_word-recurrence mt k j from (omega (arith, mixed.words))
        ∙ rw (first, second, middle) refl
        ∙ sym (next (base + k))
        ∙ ap x (omega arith) in
      record {
        words = length-twist_word mt k j from ∙ mixed.words;
        new = λ i below. elim (Bool-cases (i == k)) [
          | inl e ↦
              let same : i ≡ k = ground (arith, e) in
              ap (word (twist_word mt k j from)) same
              ∙ here
              ∙ ap (λ i. x (base + rand_n + i)) (sym same)
          | inr e ↦
              twist_word_ne mt k j from i (λ s. absurd (ground (arith, e)))
              ∙ mixed.new i (ground (arith, e))
        ];
        old = λ i above inside.
            twist_word_ne mt k j from i (λ s. absurd (omega (arith, s)))
            ∙ mixed.old i (omega arith) inside;
      }

  Mixed-same : {base k k' : ℕ} {mt : List ℕ} → k ≡ k' → Mixed base k mt → Mixed base k' mt
  Mixed-same {base} {mt} e = subst (λ i. Mixed base i mt) e

  -- The first loop of the generator reads the middle words ahead of the word that it writes.
  twist_words-front :
      {base : ℕ} (n k from : ℕ) (mt : List ℕ)
      → from ≡ k + rand_m
      → k + n + rand_m ≤ rand_n
      → Mixed base k mt
      → Mixed base (k + n) (twist_words n k from mt)
  unfolding twist_words
  twist_words-front {base} zero k from mt ahead inside mixed = Mixed-same (omega arith) mixed
  twist_words-front {base} (suc n) k from mt ahead inside mixed = Mixed-same (omega arith) (
      twist_words-front {base = base} n (k + 1) (from + 1) (twist_word mt k (k + 1) from)
        (omega arith) (omega arith)
        (twist_word-Mixed (k + 1) from (omega arith)
          (mixed.old (k + 1) (omega arith) (omega arith) ∙ ap x (omega arith))
          (mixed.old from (omega arith) (omega arith) ∙ ap x (omega arith)) mixed))

  -- The second one reads those that have been written.
  twist_words-back :
      {base : ℕ} (n k from : ℕ) (mt : List ℕ)
      → from + rand_n ≡ k + rand_m
      → k + n < rand_n
      → Mixed base k mt
      → Mixed base (k + n) (twist_words n k from mt)
  unfolding twist_words
  twist_words-back {base} zero k from mt behind inside mixed = Mixed-same (omega arith) mixed
  twist_words-back {base} (suc n) k from mt behind inside mixed = Mixed-same (omega arith) (
      twist_words-back {base = base} n (k + 1) (from + 1) (twist_word mt k (k + 1) from)
        (omega arith) (omega arith)
        (twist_word-Mixed (k + 1) from (omega arith)
          (mixed.old (k + 1) (omega arith) (omega arith) ∙ ap x (omega arith))
          (mixed.new from (omega arith) ∙ ap x (omega arith)) mixed))

  twist-Mixed : (base : ℕ) (mt : List ℕ) → Mixed base 0 mt → Mixed base rand_n (twist mt)
  unfolding twist
  twist-Mixed base mt mixed =
      let front =
        twist_words-front {base = base} (rand_n - rand_m) 0 rand_m mt (omega arith) (omega arith)
          mixed in
      let back =
        twist_words-back {base = base} (rand_m - 1) (rand_n - rand_m) 0 _ (omega arith)
          (omega arith) front in
      twist_word-Mixed 0 (rand_m - 1) (omega arith) (back.new 0 (omega arith) ∙ ap x (omega arith))
        (back.new (rand_m - 1) (omega arith) ∙ ap x (omega arith)) back

  -- After `k` draws the array holds the words of the sequence from `base` on, and the index shows
  -- which of them is the next.
  record Follows (k : ℕ) (r : SklRand) : Type 0 where
    base : ℕ
    words : length r.mt ≡ rand_n
    same : (j : ℕ) → j < rand_n → word r.mt j ≡ x (base + j)
    index : r.mti ≤ rand_n
    place : base + r.mti ≡ k + rand_n

  -- The array, filled again with `m` if `b` tells so, before a word of it is read.
  refilled :
      (k : ℕ) (b : Bool) (r : SklRand) (m : List ℕ)
      → (b ≡ true → Follows k (record { mt = m; mti = 0 }))
      → (b ≡ false → r.mti < rand_n)
      → Follows k r
      → let r' : SklRand = if b then record { mt = m; mti = 0 } else r in
        Follows k r' × (r'.mti < rand_n)
  refilled k true r m again left f = (again refl, omega arith)
  refilled k false r m again left f = (f, left refl)

  twist-Follows :
      (k : ℕ) (r : SklRand)
      → leb rand_n r.mti ≡ true
      → Follows k r
      → Follows k (record { mt = twist r.mt; mti = 0 })
  twist-Follows k r used f =
      let again = twist-Mixed f.base r.mt (record {
        words = f.words;
        new = λ j below. absurd (omega arith);
        old = λ j above inside. f.same j inside;
      }) in
      record {
        base = f.base + rand_n;
        words = again.words;
        same = again.new;
        index = omega arith;
        place = ground (arith, used, f.index, f.place);
      }

  yield_integer32-Follows :
      (k : ℕ) (r : SklRand)
      → Follows k r
      → ((yield_integer32 r).0 ≡ temper (x (k + rand_n))) × Follows (k + 1) (yield_integer32 r).1
  unfolding yield_integer32 rand_int
  yield_integer32-Follows k r f =
      let (f', inside) =
        refilled k (leb rand_n r.mti) r (twist r.mt) (λ used. twist-Follows k r used f)
          (λ left. ground (arith, left)) f in
      (
        ap temper (f'.same _ inside ∙ ap x f'.place),
        record {
          base = f'.base;
          words = f'.words;
          same = f'.same;
          index = omega (arith, inside);
          place = omega (arith, f'.place);
        },
      )

module _ (w : ℕ → ℕ) where
  next_word :
      (k : ℕ)
      → run mt19937 w (k + rand_n)
        ≡ recurrence mt19937 (run mt19937 w k) (run mt19937 w (k + 1)) (run mt19937 w (k + rand_m))
  unfolding mt19937
  next_word k = run-recurrence mt19937 w k (omega arith) (omega arith)

  output_lem :
      (k : ℕ)
      → tempered mt19937 (register mt19937 w (suc k) (mt19937.n - 1))
        ≡ temper (run mt19937 w (k + rand_n))
  unfolding mt19937
  output_lem k =
      sym (temper-tempered (register mt19937 w (suc k) 623))
      ∙ ap temper (register-last mt19937 w k (omega arith) (omega arith) ∙ sym (next_word k))

  draws-outputs_from :
      (n k : ℕ) (r : SklRand)
      → Follows (run mt19937 w) next_word k r
      → draws n r ≡ outputs mt19937 w n k
  draws-outputs_from zero k r f = refl
  draws-outputs_from (suc n) k r f =
      let (drawn, f') = yield_integer32-Follows (run mt19937 w) next_word k r f in
      let same : suc k ≡ k + 1 = omega arith in
      let rest : draws n (yield_integer32 r).1 ≡ outputs mt19937 w n (suc k) =
        rw same (draws-outputs_from n (k + 1) (yield_integer32 r).1 f') in
      rw (drawn, rest, output_lem k) refl

-- A generator all of whose words are used up goes on as the register that they fill.
draws_lem :
    (r : SklRand)
    → length r.mt ≡ rand_n
    → r.mti ≡ rand_n
    → (n : ℕ) → draws n r ≡ outputs mt19937 (word r.mt) n 0
unfolding mt19937 word register
draws_lem r words used n = draws-outputs_from (word r.mt) n 0 r (record {
  base = 0;
  words = words;
  same = λ j low. register-run mt19937 (word r.mt) j 0 low;
  index = omega (arith, used);
  place = omega (arith, used);
})

seeded_step :
    (seed i prev : ℕ)
    → prev ≡ seeded mt19937 seed i
    → (1812433253 * bit_xor prev (prev / 2 ^ 30) + (i + 1)) % 2 ^ 32 ≡ seeded mt19937 seed (i + 1)
unfolding seeded mt19937
seeded_step seed i prev e = let same : i + 1 ≡ suc i = omega arith in rw (same, e) refl

seeded_zero : (seed : ℕ) → seeded mt19937 seed 0 ≡ seed
unfolding seeded
seeded_zero seed = refl

word-seed_words :
    (seed n i prev j : ℕ)
    → prev ≡ seeded mt19937 seed i
    → j < n
    → word (seed_words n prev (i + 1)) j ≡ seeded mt19937 seed (i + 1 + j)
unfolding word seed_words
word-seed_words seed zero i prev j e low = absurd (omega arith)
word-seed_words seed (suc n) i prev zero e low =
    seeded_step seed i prev e ∙ ap (seeded mt19937 seed) (omega arith)
word-seed_words seed (suc n) i prev (suc j) e low =
    word-seed_words seed n (i + 1) _ j (seeded_step seed i prev e) (omega arith)
    ∙ ap (seeded mt19937 seed) (omega arith)

word-rand_set_seed :
    (seed j : ℕ) → j < rand_n → word (rand_set_seed seed).mt j ≡ seeded mt19937 seed j
unfolding rand_set_seed word
word-rand_set_seed seed zero low = sym (seeded_zero seed)
word-rand_set_seed seed (suc j) low =
    word-seed_words seed (rand_n - 1) 0 seed j (sym (seeded_zero seed)) (omega arith)
    ∙ ap (seeded mt19937 seed) (omega arith)

mti-rand_set_seed_array :
    (seeds : List ℕ) (seed_length : ℕ) → (rand_set_seed_array seeds seed_length).mti ≡ rand_n
unfolding rand_set_seed_array
mti-rand_set_seed_array seeds seed_length = mti-rand_set_seed 19650218

-- A generator that a number seeds, or an array of numbers, gives the numbers of the published
-- MT19937, however many are drawn: those of the register that is filled by the seed, or by the
-- words that the array leaves.
pub draws-outputs :
    (seed : ℕ) (seeds : List ℕ) (seed_length n : ℕ)
    → let r = rand_set_seed_array seeds seed_length in
      (draws n (rand_set_seed seed) ≡ outputs mt19937 (seeded mt19937 seed) n 0)
      × (draws n r ≡ outputs mt19937 (word r.mt) n 0)
unfolding mt19937
draws-outputs seed seeds seed_length n =
    let (plain, mixed) = rand_set_seed-IsReady seed seeds seed_length in
    (
      draws_lem (rand_set_seed seed) plain.words (mti-rand_set_seed seed) n
          ∙ outputs-same mt19937 (word (rand_set_seed seed).mt) (seeded mt19937 seed) (omega arith)
              (omega arith) (word-rand_set_seed seed) n 0,
      draws_lem (rand_set_seed_array seeds seed_length) mixed.words
          (mti-rand_set_seed_array seeds seed_length) n,
    )
