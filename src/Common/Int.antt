-- ===== src/Common/Int.antt =====
-- Signed counters over the native numbers, with the two steps of an atomic counter.
use Prim.Native.Nat.{ℕ, zero, suc, ◌+◌}
use mathlib.Core.Path.{◌≡◌, refl}
use mathlib.Core.Bool.{Bool, true, false}
use native.Mathlib.Omega.{arith}

-- `negsuc n` is -(n + 1).
pub data ℤ : Type 0 where
  pos : ℕ → ℤ
  negsuc : ℕ → ℤ

abbrev pub pos_part : ℤ → ℕ
pos_part (pos n) = n
pos_part (negsuc n) = 0

abbrev pub neg_part : ℤ → ℕ
neg_part (pos n) = 0
neg_part (negsuc n) = suc n

-- `--n` and `++n`
abbrev pub dec : ℤ → ℤ
dec (pos zero) = negsuc zero
dec (pos (suc n)) = pos n
dec (negsuc n) = negsuc (suc n)

abbrev pub inc : ℤ → ℤ
inc (pos n) = pos (suc n)
inc (negsuc zero) = pos zero
inc (negsuc (suc n)) = negsuc n

abbrev pub is_zero : ℤ → Bool
is_zero (pos zero) = true
is_zero _ = false

pub inc-dec : (s : ℤ) → inc (dec s) ≡ s
inc-dec (pos zero) = refl
inc-dec (pos (suc n)) = refl
inc-dec (negsuc n) = refl

pub dec_parts : (s : ℤ) → pos_part (dec s) + neg_part s + 1 ≡ neg_part (dec s) + pos_part s
dec_parts (pos zero) = omega arith
dec_parts (pos (suc n)) = omega arith
dec_parts (negsuc n) = omega arith

pub inc_parts : (s : ℤ) → pos_part (inc s) + neg_part s ≡ neg_part (inc s) + pos_part s + 1
inc_parts (pos n) = omega arith
inc_parts (negsuc zero) = omega arith
inc_parts (negsuc (suc n)) = omega arith
