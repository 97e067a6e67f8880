-- ===== src/Rand/Digits.antt =====
-- How large `&`, `|` and `^` of two numbers get: src/private/skl_rand.c makes its words with them.
use myskl.Prelude.{ℕ, zero, suc, ◌/◌, ◌%◌, ◌^◌, ◌≤◌, ◌<◌, arith, max, bit_and, bit_or, bit_xor}
use Prim.Native.Nat.{min, differ, digits, bit_and-bitwise, bit_or-bitwise, bit_xor-bitwise}

differ-lt : (x y : ℕ) → x < 2 → y < 2 → differ x y < 2
differ-lt zero y p q = q
differ-lt (suc zero) zero p q = omega arith
differ-lt (suc zero) (suc zero) p q = omega arith
differ-lt (suc zero) (suc (suc y)) p q = absurd (omega arith)
differ-lt (suc (suc x)) y p q = absurd (omega arith)

min-lt : (x y : ℕ) → x < 2 → y < 2 → min x y < 2
min-lt x y p q = omega arith

max-lt : (x y : ℕ) → x < 2 → y < 2 → max x y < 2
max-lt x y p q = omega arith

module _ (z : ℕ → ℕ) (f : ℕ → ℕ → ℕ) (short : (b : ℕ) → z b ≤ b)
    (digit : (x y : ℕ) → x < 2 → y < 2 → f x y < 2) where
  digits-lt : (k n a b : ℕ) → a < 2 ^ k → b < 2 ^ k → digits z f n a b < 2 ^ k
  digits-lt k zero a b p q = omega (arith, short b)
  digits-lt k (suc n) zero b p q = omega (arith, short b)
  digits-lt zero (suc n) (suc a) b p q = absurd (omega arith)
  digits-lt (suc k) (suc n) (suc a) b p q = omega (
    arith,
    digits-lt k n (suc a / 2) (b / 2) (omega arith) (omega arith),
    digit (suc a % 2) (b % 2) (omega arith) (omega arith),
  )

pub bit_xor-lt : (k a b : ℕ) → a < 2 ^ k → b < 2 ^ k → bit_xor a b < 2 ^ k
bit_xor-lt k a b p q =
    omega (
      arith,
      bit_xor-bitwise a b,
      digits-lt (λ b. b) differ (λ b. omega arith) differ-lt k a a b p q,
    )

pub bit_or-lt : (k a b : ℕ) → a < 2 ^ k → b < 2 ^ k → bit_or a b < 2 ^ k
bit_or-lt k a b p q =
    omega (arith, bit_or-bitwise a b, digits-lt (λ b. b) max (λ b. omega arith) max-lt k a a b p q)

-- The other operand of `&` can be any number; a bound on both is what the callers have.
pub bit_and-lt : (k a b : ℕ) → a < 2 ^ k → b < 2 ^ k → bit_and a b < 2 ^ k
bit_and-lt k a b p q =
    omega
      (arith, bit_and-bitwise a b, digits-lt (λ b. zero) min (λ b. omega arith) min-lt k a a b p q)
