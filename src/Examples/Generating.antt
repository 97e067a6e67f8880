-- ===== src/Examples/Generating.antt =====
-- Generators that are seeded, and draws from them.
use myskl.Prelude.{◌≡◌, refl, [], ◌∷◌}
use myskl.Rand.{
  rand_set_seed_array, word, mix_seed, mix_again, next_index, mix_word, rand_set_seed, seed_words,
}
use myskl.Rand.Words.{draws}
use myskl.Rand.Register.{mt19937, recurrence, register, shift, tempered, outputs, seeded}
use myskl.Rand.Twister.{draws-outputs}

-- The first number of MT19937 from its usual seed
mt19937_first : outputs mt19937 (seeded mt19937 5489) 1 0 ≡ 3499211612 ∷ []
unfolding mt19937 recurrence register shift tempered seeded
mt19937_first = refl

draws-outputs_example :
    (draws 2 (rand_set_seed 5489) ≡ outputs mt19937 (seeded mt19937 5489) 2 0)
    × (draws 2 (rand_set_seed_array (1 ∷ 2 ∷ []) 2)
        ≡ outputs mt19937 (word (rand_set_seed_array (1 ∷ 2 ∷ []) 2).mt) 2 0)
draws-outputs_example = draws-outputs 5489 (1 ∷ 2 ∷ []) 2 2

-- The first number of MT19937 from the four seeds of its published test
array_first :
    outputs mt19937 (word (rand_set_seed_array (291 ∷ 564 ∷ 837 ∷ 1110 ∷ []) 4).mt) 1 0
    ≡ 1067595299 ∷ []
unfolding mt19937 recurrence register shift tempered seeded rand_set_seed_array mix_seed mix_again
    next_index mix_word word rand_set_seed seed_words
array_first = refl
