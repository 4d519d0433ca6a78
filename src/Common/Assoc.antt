-- ===== src/Common/Assoc.antt =====
-- Maps of the standard library by keys that are numbers: association lists in the order of iteration.
use Prim.Native.Nat.{ℕ, suc, ◌≤◌, ◌<◌}
use mathlib.Core.Path.{◌≡◌, refl, subst}
use mathlib.Core.Logic.{◌≢◌, inl, inr}
use mathlib.Core.Bool.{Bool}
use mathlib.Core.Option.{Option, none, some}
use mathlib.Core.List.{List, [], ◌∷◌}
use native.Mathlib.Omega.{arith}
use native.Mathlib.Decide.{ℕ_discrete}
use model_lib.Common.Tests.{if◌then◌else◌, ◌==◌, Bool-cases}
use model_lib.Common.Lists.{length, All}

module _ {ℓ} {V : Type ℓ} where
  -- `find`
  abbrev pub lookup : List (ℕ × V) → ℕ → Option V
  lookup [] k = none
  lookup (e ∷ m) k = if k == e.0 then some e.1 else lookup m k

  -- `it->second = v` at the key that is there.
  abbrev pub replace : ℕ → V → List (ℕ × V) → List (ℕ × V)
  replace k v [] = []
  replace k v (e ∷ m) = if k == e.0 then (k, v) ∷ m else e ∷ replace k v m

  -- `erase`
  abbrev pub erase : ℕ → List (ℕ × V) → List (ℕ × V)
  erase k [] = []
  erase k (e ∷ m) = if k == e.0 then m else e ∷ erase k m

  -- Insertion of a key that is not there, at the place that the order of the container gives it.
  abbrev pub place : (ℕ → ℕ → Bool) → ℕ → V → List (ℕ × V) → List (ℕ × V)
  place before k v [] = (k, v) ∷ []
  place before k v (e ∷ m) = if before k e.0 then (k, v) ∷ e ∷ m else e ∷ place before k v m

module _ {ℓ} {V : Type ℓ} where
  pub lookup-replace_self :
      (m : List (ℕ × V)) (k : ℕ) (v w : V) → lookup m k ≡ some w → lookup (replace k v m) k ≡ some v
  lookup-replace_self [] k v w h = absurd (cc h)
  lookup-replace_self (e ∷ m) k v w h = ground (arith, lookup-replace_self m k v w)

  pub lookup-replace_ne :
      (m : List (ℕ × V)) (k j : ℕ) (v : V) → k ≢ j → lookup (replace k v m) j ≡ lookup m j
  lookup-replace_ne [] k j v h = refl
  lookup-replace_ne (e ∷ m) k j v h = ground (arith, lookup-replace_ne m k j v h)

  pub length-replace : (m : List (ℕ × V)) (k : ℕ) (v : V) → length (replace k v m) ≡ length m
  length-replace [] k v = refl
  length-replace (e ∷ m) k v = ground (arith, length-replace m k v)

  pub lookup-place_self :
      (before : ℕ → ℕ → Bool) (m : List (ℕ × V)) (k : ℕ) (v : V)
      → lookup m k ≡ none
      → lookup (place before k v m) k ≡ some v
  lookup-place_self before [] k v h = ground arith
  lookup-place_self before (e ∷ m) k v h = ground (arith, lookup-place_self before m k v)

  pub lookup-place_ne :
      (before : ℕ → ℕ → Bool) (m : List (ℕ × V)) (k j : ℕ) (v : V)
      → k ≢ j
      → lookup (place before k v m) j ≡ lookup m j
  lookup-place_ne before [] k j v h = ground arith
  lookup-place_ne before (e ∷ m) k j v h = ground (arith, lookup-place_ne before m k j v h)

  pub length-place :
      (before : ℕ → ℕ → Bool) (m : List (ℕ × V)) (k : ℕ) (v : V)
      → length (place before k v m) ≡ suc (length m)
  length-place before [] k v = refl
  length-place before (e ∷ m) k v = ground (arith, length-place before m k v)

  pub length-erase : (m : List (ℕ × V)) (k : ℕ) → length (erase k m) ≤ length m
  length-erase [] k = omega arith
  length-erase (e ∷ m) k = ground (arith, length-erase m k)

  pub lookup-erase_ne : (m : List (ℕ × V)) (k j : ℕ) → k ≢ j → lookup (erase k m) j ≡ lookup m j
  lookup-erase_ne [] k j h = refl
  lookup-erase_ne (e ∷ m) k j h = ground (arith, lookup-erase_ne m k j h)

  -- Each key stands once.
  abbrev pub Distinct : List (ℕ × V) → Type ℓ
  Distinct [] = Unit
  Distinct (e ∷ m) = (lookup m e.0 ≡ none) × Distinct m

  pub Distinct-replace : (m : List (ℕ × V)) (k : ℕ) (v : V) → Distinct m → Distinct (replace k v m)
  Distinct-replace [] k v d = d
  Distinct-replace (e ∷ m) k v d = elim (ℕ_discrete k e.0) [
    | yes same ↦ ground (arith, d.0, d.1)
    | no other ↦ ground (arith, d.0, Distinct-replace m k v d.1, lookup-replace_ne m k e.0 v other)
  ]

  pub Distinct-place :
      (before : ℕ → ℕ → Bool) (m : List (ℕ × V)) (k : ℕ) (v : V)
      → lookup m k ≡ none
      → Distinct m
      → Distinct (place before k v m)
  Distinct-place before [] k v h d = (refl, tt)
  Distinct-place before (e ∷ m) k v h d = elim (ℕ_discrete k e.0) [
    | yes same ↦ ground (arith, h)
    | no other ↦
        ground
          (arith, h, d.0, d.1, Distinct-place before m k v, lookup-place_ne before m k e.0 v other)
  ]

  pub Distinct-erase : (m : List (ℕ × V)) (k : ℕ) → Distinct m → Distinct (erase k m)
  Distinct-erase [] k d = d
  Distinct-erase (e ∷ m) k d = elim (ℕ_discrete k e.0) [
    | yes same ↦ ground (arith, d.1)
    | no other ↦ ground (arith, d.0, Distinct-erase m k d.1, lookup-erase_ne m k e.0 other)
  ]

  pub lookup-erase_self : (m : List (ℕ × V)) (k : ℕ) → Distinct m → lookup (erase k m) k ≡ none
  lookup-erase_self [] k d = refl
  lookup-erase_self (e ∷ m) k d = ground (arith, d.0, lookup-erase_self m k d.1)

  -- What holds of every entry holds of one that is found.
  pub All-lookup {κ} :
      (P : V → Type κ) (m : List (ℕ × V)) (k : ℕ) (v : V)
      → All (λ (e : ℕ × V). P e.1) m
      → lookup m k ≡ some v
      → P v
  All-lookup P [] k v a h = absurd (cc h)
  All-lookup P (e ∷ m) k v a h = elim (ℕ_discrete k e.0) [
    | yes same ↦ subst P (ground (arith, h)) a.0
    | no other ↦ All-lookup P m k v a.1 (ground (arith, h))
  ]

  pub All-replace {κ} :
      (P : V → Type κ) (m : List (ℕ × V)) (k : ℕ) (v : V)
      → All (λ (e : ℕ × V). P e.1) m
      → P v
      → All (λ (e : ℕ × V). P e.1) (replace k v m)
  All-replace P [] k v a h = tt
  All-replace P (e ∷ m) k v a h = elim (ℕ_discrete k e.0) [
    | yes same ↦ ground (arith, a.0, a.1, h)
    | no other ↦ ground (arith, a.0, All-replace P m k v a.1 h)
  ]

  pub All-place {κ} :
      (P : V → Type κ) (before : ℕ → ℕ → Bool) (m : List (ℕ × V)) (k : ℕ) (v : V)
      → All (λ (e : ℕ × V). P e.1) m
      → P v
      → All (λ (e : ℕ × V). P e.1) (place before k v m)
  All-place P before [] k v a h = (h, tt)
  All-place P before (e ∷ m) k v a h = elim (Bool-cases (before k e.0)) [
    | inl first ↦ rw first (h, a)
    | inr later ↦ rw later (a.0, All-place P before m k v a.1 h)
  ]

  pub All-erase {κ} :
      (P : V → Type κ) (m : List (ℕ × V)) (k : ℕ)
      → All (λ (e : ℕ × V). P e.1) m
      → All (λ (e : ℕ × V). P e.1) (erase k m)
  All-erase P [] k a = tt
  All-erase P (e ∷ m) k a = elim (ℕ_discrete k e.0) [
    | yes same ↦ ground (arith, a.1)
    | no other ↦ ground (arith, a.0, All-erase P m k a.1)
  ]

pub All-below_suc :
    (n : ℕ) (m : List (ℕ × ℕ)) → All (λ (e : ℕ × ℕ). e.1 < n) m → All (λ (e : ℕ × ℕ). e.1 < suc n) m
All-below_suc n [] a = tt
All-below_suc n (e ∷ m) a = (omega (arith, a.0), All-below_suc n m a.1)
