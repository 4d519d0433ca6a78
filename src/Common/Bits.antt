-- ===== src/Common/Bits.antt =====
-- Laws of exclusive or and of low masks at variables.
mod Step
pub use Prim.Native.Nat.{bit_and, bit_xor}
use Step.{bit_xor_step, bit_and_step}
use Prim.Native.Nat.{ℕ, zero, suc, ◌+◌, ◌*◌, ◌/◌, ◌%◌, ◌^◌, ◌≤◌, ◌<◌, bit_xor-bitwise}
use mathlib.Core.Path.{◌≡◌, refl, ap}
use native.Mathlib.Nat.{pow-suc, le_refl}
use native.Mathlib.Omega.{arith}

pub xor-half : (a b : ℕ) → bit_xor a b / 2 ≡ bit_xor (a / 2) (b / 2)
xor-half a b = omega (arith, bit_xor_step a b)

pub xor-parity : (a b : ℕ) → bit_xor a b % 2 ≡ (a + b) % 2
xor-parity a b = omega (arith, bit_xor_step a b)

pub zero-xor : (a : ℕ) → bit_xor 0 a ≡ a
zero-xor a = bit_xor-bitwise 0 a

xor-zero_below : (n a : ℕ) → a ≤ n → bit_xor a 0 ≡ a
xor-zero_below n zero h = refl
xor-zero_below zero (suc a) h = absurd (omega arith)
xor-zero_below (suc n) (suc a) h =
    omega (arith, bit_xor_step (suc a) 0, xor-zero_below n (suc a / 2) (omega arith))

pub xor-zero : (a : ℕ) → bit_xor a 0 ≡ a
xor-zero a = xor-zero_below a a (omega arith)

xor_self_below : (n a : ℕ) → a ≤ n → bit_xor a a ≡ 0
xor_self_below n zero h = refl
xor_self_below zero (suc a) h = absurd (omega arith)
xor_self_below (suc n) (suc a) h =
    omega (arith, bit_xor_step (suc a) (suc a), xor_self_below n (suc a / 2) (omega arith))

pub xor_self : (a : ℕ) → bit_xor a a ≡ 0
xor_self a = xor_self_below a a (omega arith)

xor_comm_below : (n a b : ℕ) → a ≤ n → bit_xor a b ≡ bit_xor b a
xor_comm_below n zero b h = omega (arith, zero-xor b, xor-zero b)
xor_comm_below zero (suc a) b h = absurd (omega arith)
xor_comm_below (suc n) (suc a) b h = omega (
  arith,
  bit_xor_step (suc a) b,
  bit_xor_step b (suc a),
  xor_comm_below n (suc a / 2) (b / 2) (omega arith),
)

pub xor_comm : (a b : ℕ) → bit_xor a b ≡ bit_xor b a
xor_comm a b = xor_comm_below a a b (omega arith)

xor_assoc_below : (n a b c : ℕ) → a ≤ n → bit_xor (bit_xor a b) c ≡ bit_xor a (bit_xor b c)
xor_assoc_below n zero b c h = simp zero-xor
xor_assoc_below zero (suc a) b c h = absurd (omega arith)
xor_assoc_below (suc n) (suc a) b c h = rw (bit_xor_step (bit_xor (suc a) b) c) (
    rw (bit_xor_step (suc a) (bit_xor b c)) (
      rw (xor-half (suc a) b, xor-half b c)
        (rw (xor_assoc_below n (suc a / 2) (b / 2) (c / 2) (omega arith))
          (omega (arith, xor-parity (suc a) b, xor-parity b c)))))

pub xor_assoc : (a b c : ℕ) → bit_xor (bit_xor a b) c ≡ bit_xor a (bit_xor b c)
xor_assoc a b c = xor_assoc_below a a b c (omega arith)

-- An exclusive or has no more digits than its arguments.
pub xor-lt : (k a b : ℕ) → a < 2 ^ k → b < 2 ^ k → bit_xor a b < 2 ^ k
xor-lt zero zero zero p q = omega arith
xor-lt zero zero (suc b) p q = absurd (omega arith)
xor-lt zero (suc a) b p q = absurd (omega arith)
xor-lt (suc k) a b p q = omega (
  arith,
  pow-suc 2 k,
  bit_xor_step a b,
  xor-lt k (a / 2) (b / 2) (omega (arith, pow-suc 2 k)) (omega (arith, pow-suc 2 k)),
)

pub shift-suc : (q k : ℕ) → q * 2 ^ suc k ≡ q * 2 ^ k + q * 2 ^ k
shift-suc q k = omega (arith, ap (λ (p : ℕ). q * p) (pow-suc 2 k))

-- The exclusive or of disjoint bytes is their sum.
pub xor_fields : (h r : ℕ) → r < 2 ^ 8 → bit_xor (h * 2 ^ 8) r ≡ h * 2 ^ 8 + r
xor_fields = disjoint 8
  where
    disjoint : (k h low : ℕ) → low < 2 ^ k → bit_xor (h * 2 ^ k) low ≡ h * 2 ^ k + low
    disjoint zero h low below = ground (arith, xor-zero h)
    disjoint (suc k) h low below = ground (
      disjoint k h (low / 2) (omega (arith, pow-suc 2 k)),
      shift-suc h k,
      bit_xor_step (h * 2 ^ suc k) low,
      arith,
    )

bit_and-zero_below : (n a : ℕ) → a ≤ n → bit_and a 0 ≡ 0
bit_and-zero_below n zero h = refl
bit_and-zero_below zero (suc a) h = absurd (omega arith)
bit_and-zero_below (suc n) (suc a) h =
    omega (arith, bit_and_step (suc a) 0, bit_and-zero_below n (suc a / 2) (omega arith))

bit_and-odd : (a m : ℕ) → bit_and a (m * 2 + 1) ≡ bit_and (a / 2) m * 2 + a % 2
bit_and-odd a m = rw (bit_and_step a (m * 2 + 1)) (rw half (omega arith))
  where
    half : (m * 2 + 1) / 2 ≡ m
    half = omega arith

-- `& 0xff` takes the lowest byte.
pub bit_and_byte : (a : ℕ) → bit_and a 0xff ≡ a % 2 ^ 8
bit_and_byte a = omega (
  arith,
  bit_and-odd a 127,
  bit_and-odd (a / 2) 63,
  bit_and-odd (a / 2 / 2) 31,
  bit_and-odd (a / 2 / 2 / 2) 15,
  bit_and-odd (a / 2 / 2 / 2 / 2) 7,
  bit_and-odd (a / 2 / 2 / 2 / 2 / 2) 3,
  bit_and-odd (a / 2 / 2 / 2 / 2 / 2 / 2) 1,
  bit_and-odd (a / 2 / 2 / 2 / 2 / 2 / 2 / 2) 0,
  bit_and-zero_below _ (a / 2 / 2 / 2 / 2 / 2 / 2 / 2 / 2) (le_refl _),
)

-- `& 1` takes the lowest digit.
pub bit_and_one : (a : ℕ) → bit_and a 1 ≡ a % 2
bit_and_one a = omega (arith, bit_and-odd a 0, bit_and-zero_below (a / 2) (a / 2) (le_refl _))

pub xor-high : (a b : ℕ) → bit_xor a b / 2 ^ 8 ≡ bit_xor (a / 2 ^ 8) (b / 2 ^ 8)
xor-high a b = rw (quarter (bit_xor a b), quarter a, quarter b) (simp (nibble, xor-half))
  where
    nibble : (n : ℕ) → n / 16 ≡ n / 2 / 2 / 2 / 2
    nibble n = omega arith

    quarter : (n : ℕ) → n / 2 ^ 8 ≡ n / 16 / 16
    quarter n = omega arith
