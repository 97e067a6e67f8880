-- ===== src/Failure/Version.antt =====
-- The text of `_sklVersion` of src/private/skl_priv.c in its buffer.
use myskl.Prelude.{
  ℕ, suc, zero, ◌+◌, ◌≤◌, ◌<◌, ◌≡◌, refl, ap, Bool, true, false, none, List, [], ◌∷◌, ◌++◌, arith,
  length, length-append, ltb, Bool-cases, inl, inr,
}
use myskl.Failure.{const_ch_num, buff_size, cut, skl_version}

length-cut : (n : ℕ) (cs : List ℕ) → length (cut n cs) ≤ n
unfolding cut
length-cut zero cs = omega arith
length-cut (suc n) [] = omega arith
length-cut (suc n) (c ∷ cs) = omega (arith, length-cut n cs)

cut-short : (n : ℕ) (cs : List ℕ) → length cs ≤ n → cut n cs ≡ cs
unfolding cut
cut-short zero [] short = refl
cut-short zero (c ∷ cs) short = absurd (omega arith)
cut-short (suc n) [] short = refl
cut-short (suc n) (c ∷ cs) short = ap (λ ds. c ∷ ds) (cut-short n cs (omega arith))

module _ (name version : List ℕ) where
  -- The text that is made at the first call leaves room for the end of the string in the buffer of 32
  -- characters, with `snprintf` and without.
  length-skl_version :
      (has_snprintf : Bool) → length (skl_version has_snprintf name version none).0 < 32
  unfolding skl_version
  length-skl_version true = omega (arith, length-cut 31 (name ++ 45 ∷ version))
  length-skl_version false =
      elim (Bool-cases (ltb (length name + const_ch_num + length version) buff_size)) [
        | inl fits ↦ rw fits (ground (arith, length-append name (45 ∷ version)))
        | inr long ↦ rw long (omega arith)
      ]

  -- Where the name and the version fit, both ways give the name, a dash and the version; a later call
  -- gives the same text.
  skl_version-fits :
      (has_snprintf : Bool)
      → length name + length version + 1 < 32
      → let (text, kept) = skl_version has_snprintf name version none in
        (text ≡ name ++ 45 ∷ version) × (skl_version has_snprintf name version kept ≡ (text, kept))
  unfolding skl_version
  skl_version-fits true fits =
      (cut-short 31 (name ++ 45 ∷ version) (omega (arith, length-append name (45 ∷ version))), refl)
  skl_version-fits false fits =
      let short : ltb (length name + const_ch_num + length version) buff_size ≡ true =
        ground arith in
      rw short (refl, refl)
