-- ===== src/Common/Bits.antt =====
-- Facts about `bit_and` at variables: a mask bounds its result, and keeps what it covers.
use Prim.Native.Nat.{
  ℕ, zero, suc, ◌/◌, ◌%◌, ◌≤◌, ◌<◌, min, max, bit_and, bit_or, digits, bit_and-bitwise,
  bit_or-bitwise,
}
use mathlib.Core.Path.{◌≡◌, refl}
use mathlib.Core.Bool.{Bool, true, ◌&&◌}
use native.Mathlib.Omega.{arith}
use pi86_rp.Common.Tests.{◌==◌, ==→eq}

digits_le : (n a b : ℕ) → digits (λ _. zero) min n a b ≤ b
digits_le zero a b = omega arith
digits_le (suc n) zero b = omega arith
digits_le (suc n) (suc a) b = omega (arith, digits_le n (suc a / 2) (b / 2))

pub bit_and-le : (a b : ℕ) → bit_and a b ≤ b
bit_and-le a b = omega (arith, bit_and-bitwise a b, digits_le a a b)

-- A test of every number below a bound, by evaluation.
every_below : (ℕ → Bool) → ℕ → Bool
every_below test zero = true
every_below test (suc m) = every_below test m && test m

every_below-lt : (test : ℕ → Bool) (m k : ℕ) → k < m → every_below test m ≡ true → test k ≡ true
unfolding every_below
every_below-lt test zero k lt ok = absurd (omega arith)
every_below-lt test (suc m) k lt ok = ground (arith, every_below-lt test m k)

mask_63 : every_below (λ x. bit_and x 63 == x) 64 ≡ true
unfolding every_below
mask_63 = refl

mask_255 : every_below (λ x. bit_and x 255 == x) 256 ≡ true
unfolding every_below
mask_255 = refl

pub bit_and-63 : (x : ℕ) → x < 64 → bit_and x 63 ≡ x
bit_and-63 x h = ==→eq _ _ (every_below-lt _ 64 x h mask_63)

pub bit_and-255 : (x : ℕ) → x < 256 → bit_and x 255 ≡ x
bit_and-255 x h = ==→eq _ _ (every_below-lt _ 256 x h mask_255)

-- The lowest bit: what a mask of 1 reads, and what `| 1` sets.
and_low_digit : (n a : ℕ) → a ≤ n → digits (λ _. zero) min n a 1 ≡ a % 2
and_low_digit zero zero h = refl
and_low_digit zero (suc a) h = absurd (omega arith)
and_low_digit (suc n) zero h = refl
and_low_digit (suc n) (suc a) h = omega (arith, digits_le n (suc a / 2) (1 / 2))

pub bit_and-1 : (a : ℕ) → bit_and a 1 ≡ a % 2
bit_and-1 a = omega (arith, bit_and-bitwise a 1, and_low_digit a a (omega arith))

or_low_digit : (n a : ℕ) → a ≤ n → digits (λ b. b) max n a 1 % 2 ≡ 1
or_low_digit zero zero h = refl
or_low_digit zero (suc a) h = absurd (omega arith)
or_low_digit (suc n) zero h = refl
or_low_digit (suc n) (suc a) h = omega arith

pub bit_and-bit_or_1 : (a : ℕ) → bit_and (bit_or a 1) 1 ≡ 1
bit_and-bit_or_1 a =
    omega (arith, bit_and-1 (bit_or a 1), bit_or-bitwise a 1, or_low_digit a a (omega arith))
