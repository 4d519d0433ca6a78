-- ===== src/Common/Page.antt =====
-- The loop over a container that keeps the elements numbered from `from` to below `to` among those
-- that pass a test.
use Prim.Native.Nat.{ℕ, zero, suc, ◌-◌, ◌≤◌}
use mathlib.Core.Path.{◌≡◌, refl, sym}
use mathlib.Core.Logic.{inl, inr}
use mathlib.Core.Bool.{Bool, true, false}
use mathlib.Core.List.{List, [], ◌∷◌, map}
use native.Mathlib.Omega.{arith}
use model_lib.Common.Tests.{if◌then◌else◌, leb, ltb, Bool-cases}
use model_lib.Common.Lists.{keep, take, drop}
use model_lib.Common.Int.{ℤ, pos, negsuc, pos_part}

-- `i >= from`
abbrev pub at_least : ℕ → ℤ → Bool
at_least i (pos n) = leb n i
at_least i (negsuc n) = true

-- `from < to`
abbrev pub starts_below : ℤ → ℕ → Bool
starts_below (pos n) to = ltb n to
starts_below (negsuc n) to = true

-- `if (to < 0) to = size`
abbrev pub upper : ℤ → ℕ → ℕ
upper (pos n) size = n
upper (negsuc n) size = size

at_least_iff : (i : ℕ) (from : ℤ) → at_least i from ≡ leb (pos_part from) i
at_least_iff i (pos n) = refl
at_least_iff i (negsuc n) = ground arith

starts_late : (from : ℤ) (to : ℕ) → starts_below from to ≡ false → to ≤ pos_part from
starts_late (pos n) to h = ground arith
starts_late (negsuc n) to h = absurd (cc h)

drop-take_none {ℓ} : {A : Type ℓ} (xs : List A) (a b : ℕ) → b ≤ a → drop a (take b xs) ≡ []
drop-take_none xs zero zero h = refl
drop-take_none xs (suc a) zero h = refl
drop-take_none xs zero (suc b) h = absurd (omega arith)
drop-take_none [] (suc a) (suc b) h = refl
drop-take_none (x ∷ xs) (suc a) (suc b) h = drop-take_none xs a b (omega arith)

module _ {ℓ κ} {A : Type ℓ} {B : Type κ} (p : A → Bool) (f : A → B) where
  abbrev pub page : ℤ → ℕ → ℕ → List A → List B
  page from to i [] = []
  page from to i (x ∷ xs) =
      let passed = page from to i xs in
      let counted = page from to (suc i) xs in
      if p x
      then (if leb to i then [] else (if at_least i from then f x ∷ counted else counted))
      else passed

  -- The step at an element that passes, from the claim for the rest of the list.
  counted :
      (x : A) (xs : List A) (from : ℤ) (to i a b : ℕ)
      → ((a b : ℕ)
          → pos_part from - suc i ≡ a
          → to - suc i ≡ b
          → page from to (suc i) xs ≡ drop a (take b (map f (keep p xs))))
      → pos_part from - i ≡ a
      → to - i ≡ b
      → (if leb to i
          then []
          else (if at_least i from then f x ∷ page from to (suc i) xs else page from to (suc i) xs))
        ≡ drop a (take b (f x ∷ map f (keep p xs)))
  counted x xs from to i zero zero ih ha hb = ground arith
  counted x xs from to i (suc a) zero ih ha hb = ground arith
  counted x xs from to i zero (suc b) ih ha hb = ground (arith, at_least_iff i from, ih zero b)
  counted x xs from to i (suc a) (suc b) ih ha hb = ground (arith, at_least_iff i from, ih a b)

  pub page-window :
      (xs : List A) (from : ℤ) (to i a b : ℕ)
      → pos_part from - i ≡ a
      → to - i ≡ b
      → page from to i xs ≡ drop a (take b (map f (keep p xs)))
  page-window [] from to i zero zero ha hb = refl
  page-window [] from to i zero (suc b) ha hb = refl
  page-window [] from to i (suc a) zero ha hb = refl
  page-window [] from to i (suc a) (suc b) ha hb = refl
  page-window (x ∷ xs) from to i a b ha hb = elim (Bool-cases (p x)) [
    | inl h ↦ rw h (counted x xs from to i a b (λ a b. page-window xs from to (suc i) a b) ha hb)
    | inr h ↦ rw h (page-window xs from to i a b ha hb)
  ]

  -- The guarded loop is a window of the elements that pass.
  pub guarded-window :
      (xs : List A) (from : ℤ) (to : ℕ)
      → (if starts_below from to then page from to 0 xs else [])
        ≡ drop (pos_part from) (take to (map f (keep p xs)))
  guarded-window xs from to = elim (Bool-cases (starts_below from to)) [
    | inl h ↦ rw h (page-window xs from to 0 (pos_part from) to (omega arith) (omega arith))
    | inr h ↦
        rw h (sym (drop-take_none (map f (keep p xs)) (pos_part from) to (starts_late from to h)))
  ]
