-- ===== src/Common/Bits/Step.antt =====
-- The native exclusive or as one equation for the lowest digit.
use Prim.Native.Nat.{
  ℕ, zero, suc, ◌+◌, ◌*◌, ◌/◌, ◌%◌, ◌≤◌, ◌<◌, bit_and, bit_xor, digits, bitwise, differ, min,
  bit_xor-bitwise, bit_and-bitwise,
}
use mathlib.Core.Path.{◌≡◌, refl, ap}
use native.Mathlib.Nat.{le_refl}
use native.Mathlib.Omega.{arith}

-- Fuel past the first argument changes nothing.
spare_fuel :
    (z : ℕ → ℕ) (f : ℕ → ℕ → ℕ) (fuel more a b : ℕ)
    → a ≤ fuel
    → fuel ≤ more
    → digits z f more a b ≡ digits z f fuel a b
spare_fuel z f zero zero zero b le up = refl
spare_fuel z f zero (suc more) zero b le up = refl
spare_fuel z f (suc fuel) (suc more) zero b le up = refl
spare_fuel z f (suc fuel) zero a b le up = absurd (omega arith)
spare_fuel z f zero more (suc a) b le up = absurd (omega arith)
spare_fuel z f (suc fuel) (suc more) (suc a) b le up =
    ap (λ (high : ℕ). high * 2 + f (suc a % 2) (b % 2))
      (spare_fuel z f fuel more (suc a / 2) (b / 2) (omega arith) (omega arith))

-- The lowest digit of a positive number splits off.
lowest :
    (z : ℕ → ℕ) (f : ℕ → ℕ → ℕ) (a b : ℕ)
    → bitwise z f (suc a) b ≡ f (suc a % 2) (b % 2) + 2 * bitwise z f (suc a / 2) (b / 2)
lowest z f a b =
    omega (arith, spare_fuel z f (suc a / 2) a (suc a / 2) (b / 2) (le_refl _) (omega arith))

differ_digits : (a b : ℕ) → a < 2 → b < 2 → differ a b ≡ (a + b) % 2
differ_digits zero b p q = omega arith
differ_digits (suc zero) zero p q = omega arith
differ_digits (suc zero) (suc zero) p q = omega arith
differ_digits (suc zero) (suc (suc b)) p q = absurd (omega arith)
differ_digits (suc (suc a)) b p q = absurd (omega arith)

-- The lowest digit of an exclusive or is the parity of the sum.
pub bit_xor_step : (m n : ℕ) → bit_xor m n ≡ bit_xor (m / 2) (n / 2) * 2 + (m + n) % 2
bit_xor_step zero n = omega (arith, bit_xor-bitwise zero n, bit_xor-bitwise zero (n / 2))
bit_xor_step (suc m) n = omega (
  arith,
  lowest (λ y. y) differ m n,
  bit_xor-bitwise (suc m) n,
  bit_xor-bitwise (suc m / 2) (n / 2),
  differ_digits (suc m % 2) (n % 2) (omega arith) (omega arith),
)

-- That of a conjunction is 1 where both are.
pub bit_and_step : (m n : ℕ) → bit_and m n ≡ bit_and (m / 2) (n / 2) * 2 + min (m % 2) (n % 2)
bit_and_step zero n = omega (arith, bit_and-bitwise zero n, bit_and-bitwise zero (n / 2))
bit_and_step (suc m) n = omega (
  arith,
  lowest (λ y. zero) min m n,
  bit_and-bitwise (suc m) n,
  bit_and-bitwise (suc m / 2) (n / 2),
)
