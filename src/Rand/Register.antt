-- ===== src/Rand/Register.antt =====
-- What the generator of src/private/skl_rand.c is to compute: the Mersenne Twister as a register of
-- words that is shifted by one word at each draw, for any parameters.
use myskl.Prelude.{
  ℕ, zero, suc, ◌+◌, ◌-◌, ◌*◌, ◌/◌, ◌%◌, ◌^◌, ◌<◌, ◌≡◌, refl, bit_and, bit_xor, bit_or, List, [],
  ◌∷◌, ◌==◌, if◌then◌else◌, arith, ap, ◌∙◌, ne→==, sym, true, false, Bool-cases, inl, inr,
}

-- The parameters of a generator of words of 32 bits, by their usual letters: the size of the
-- register, the offset of the middle word, the number of the lower bits, the twist, the shifts
-- and masks of the tempering, and the factor of the seeding.
pub record Parameters : Type 0 where
  pub n : ℕ
  pub m : ℕ
  pub r : ℕ
  pub a : ℕ
  pub u : ℕ
  pub s : ℕ
  pub b : ℕ
  pub t : ℕ
  pub c : ℕ
  pub l : ℕ
  pub f : ℕ

-- The published parameters of MT19937
unfoldable pub mt19937 : Parameters
mt19937 = record {
  n = 624;
  m = 397;
  r = 31;
  a = 2567483615;
  u = 11;
  s = 7;
  b = 2636928640;
  t = 15;
  c = 4022730752;
  l = 18;
  f = 1812433253;
}

module _ (p : Parameters) where
  -- The word `n` places behind a word, of the word, the one behind it and the middle one
  unfoldable pub recurrence : ℕ → ℕ → ℕ → ℕ
  recurrence first second middle =
      let y = bit_or (bit_and first (2 ^ 32 - 2 ^ p.r)) (bit_and second (2 ^ p.r - 1)) in
      bit_xor (bit_xor middle (y / 2)) (if bit_and y 1 == 0 then 0 else p.a)

  unfoldable pub shift : (ℕ → ℕ) → ℕ → ℕ
  shift w j = if suc j == p.n then recurrence (w 0) (w 1) (w p.m) else w (suc j)

  -- The register after `k` shifts
  unfoldable pub register : (ℕ → ℕ) → ℕ → ℕ → ℕ
  register w zero = w
  register w (suc k) = shift (register w k)

  unfoldable pub tempered : ℕ → ℕ
  tempered x =
      let y = bit_xor x (x / 2 ^ p.u) in
      let y' = bit_xor y (bit_and (y * 2 ^ p.s % 2 ^ 32) p.b) in
      let z = bit_xor y' (bit_and (y' * 2 ^ p.t % 2 ^ 32) p.c) in bit_xor z (z / 2 ^ p.l)

  -- The first `n` numbers, from the `k`-th on: each is the new word that a shift puts last.
  abbrev pub outputs : (ℕ → ℕ) → ℕ → ℕ → List ℕ
  outputs w zero k = []
  outputs w (suc n) k = tempered (register w (suc k) (p.n - 1)) ∷ outputs w n (suc k)

  -- The register that a seed fills
  unfoldable pub seeded : ℕ → ℕ → ℕ
  seeded seed zero = seed
  seeded seed (suc i) =
      let before = seeded seed i in (p.f * bit_xor before (before / 2 ^ 30) + suc i) % 2 ^ 32

  -- The sequence that runs through the register
  abbrev pub run : (ℕ → ℕ) → ℕ → ℕ
  run w k = register w k 0

  pub register-run : (w : ℕ → ℕ) (j k : ℕ) → j < p.n → register w k j ≡ run w (k + j)
  unfolding register shift
  register-run w zero k low = ap (run w) (omega arith)
  register-run w (suc j) k low =
      let inner : (suc j == p.n) ≡ false = ne→== (suc j) p.n (omega arith) in
      let moved : register w (suc k) j ≡ register w k (suc j) = rw inner refl in
      sym moved ∙ register-run w j (suc k) (omega arith) ∙ ap (run w) (omega arith)

  pub register-last :
      (w : ℕ → ℕ) (k : ℕ)
      → 1 < p.n
      → p.m < p.n
      → register w (suc k) (p.n - 1) ≡ recurrence (run w k) (run w (k + 1)) (run w (k + p.m))
  unfolding register shift
  register-last w k two inside =
      let final : (suc (p.n - 1) == p.n) ≡ true = ground arith in
      let first : register w k 1 ≡ run w (k + 1) = register-run w 1 k two in
      rw (final, first, register-run w p.m k inside) refl

  pub run-recurrence :
      (w : ℕ → ℕ) (k : ℕ)
      → 1 < p.n
      → p.m < p.n
      → run w (k + p.n) ≡ recurrence (run w k) (run w (k + 1)) (run w (k + p.m))
  run-recurrence w k two inside =
      ap (run w) (omega arith)
      ∙ sym (register-run w (p.n - 1) (suc k) (omega arith))
      ∙ register-last w k two inside

  register-same :
      (w w' : ℕ → ℕ)
      → 1 < p.n
      → p.m < p.n
      → ((j : ℕ) → j < p.n → w j ≡ w' j)
      → (k j : ℕ) → j < p.n
      → register w k j ≡ register w' k j
  unfolding register shift
  register-same w w' two inside same zero j low = same j low
  register-same w w' two inside same (suc k) j low =
      let before = register-same w w' two inside same k in
      elim (Bool-cases (suc j == p.n)) [
        | inl final ↦ rw (final, before 0 (omega arith), before 1 two, before p.m inside) refl
        | inr inner ↦ rw inner (before (suc j) (ground (arith, inner)))
      ]

  pub outputs-same :
      (w w' : ℕ → ℕ)
      → 1 < p.n
      → p.m < p.n
      → ((j : ℕ) → j < p.n → w j ≡ w' j)
      → (n k : ℕ) → outputs w n k ≡ outputs w' n k
  outputs-same w w' two inside same zero k = refl
  outputs-same w w' two inside same (suc n) k =
      rw
        (
          register-same w w' two inside same (suc k) (p.n - 1) (omega arith),
          outputs-same w w' two inside same n (suc k),
        )
        refl
