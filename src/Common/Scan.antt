-- ===== src/Common/Scan.antt =====
-- Searches among the numbers below a bound.
use Prim.Native.Nat.{ℕ, zero, suc, ◌≤◌, ◌<◌}
use mathlib.Core.Logic.{◌⊎◌, inl, inr}
use native.Mathlib.Nat.{le_refl}
use native.Mathlib.Omega.{arith}
use native.Mathlib.Decide.{dec_lt, ℕ_discrete}
use mathlib.Core.Path.{subst}

pub below_suc {κ} :
    (Q : ℕ → Type κ) (n : ℕ) → Q n → ((i : ℕ) → i < n → Q i) → (i : ℕ) → i < suc n → Q i
below_suc Q n last below i h = elim (ℕ_discrete n i) [
  | yes e ↦ subst Q e last
  | no ne ↦ below i (omega arith)
]

-- One that has the first property, or all have the second.
pub scan {ℓ κ} :
    (P : ℕ → Type ℓ) (Q : ℕ → Type κ) (n : ℕ)
    → ((i : ℕ) → P i ⊎ Q i)
    → ((i : ℕ) × (i < n) × P i) ⊎ ((i : ℕ) → i < n → Q i)
scan P Q zero d = inr λ i h. absurd (omega arith)
scan P Q (suc n) d = elim (scan P Q n d) [
  | inl (i, lt, p) ↦ inl (i, omega arith, p)
  | inr below ↦ elim (d n) [ inl p ↦ inl (n, omega arith, p) | inr q ↦ inr (below_suc Q n q below) ]
]

-- Where a function is greatest.
pub greatest : (f : ℕ → ℕ) (n : ℕ) → (i : ℕ) × (i < suc n) × ((j : ℕ) → j < suc n → f j ≤ f i)
greatest f zero =
    (0, omega arith, below_suc (λ j. f j ≤ f 0) 0 (le_refl _) (λ j h. absurd (omega arith)))
greatest f (suc n) =
    let (i, lt, most) = greatest f n in
    elim (dec_lt (f i) (f (suc n))) [
      | yes up ↦ (
        suc n,
        omega arith,
        below_suc (λ j. f j ≤ f (suc n)) (suc n) (le_refl _) (λ j h. omega (arith, most j h)),
      )
      | no down ↦ (i, omega arith, below_suc (λ j. f j ≤ f i) (suc n) (omega arith) most)
    ]
