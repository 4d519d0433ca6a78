-- ===== src/HandlerAllocator/Exclusive.antt =====
-- The storage of a `handler_allocator` over any sequence of allocations and releases.
use model_lib.Common.{
  ℕ, suc, ◌≤◌, ◌<◌, ◌≡◌, ◌≢◌, refl, ap, ◌∙◌, inl, inr, Bool, true, false, List, [], ◌∷◌, ltb, ◌==◌,
  ==_ne, ==_refl, if◌then◌else◌, Bool-cases, arith,
}
use mathlib.Core.Path.{subst}
use native.Mathlib.Decide.{ℕ_discrete}
use model_lib.HandlerAllocator.{allocate, deallocate, storage_size}

-- How often an address is among those that are out.
abbrev pub times : ℕ → List ℕ → ℕ
times a [] = 0
times a (p ∷ ps) = if p == a then suc (times a ps) else times a ps

-- Takes one occurrence out.
abbrev pub without : ℕ → List ℕ → List ℕ
without a [] = []
without a (p ∷ ps) = if p == a then ps else p ∷ without a ps

-- `in_use_`, and what has been allocated and not released.
pub record Handlers : Type 0 where
  pub in_use : Bool
  pub out : List ℕ

-- The `AllocateManager` never gives the storage. What is released was allocated and not released since.
pub data Step (storage : ℕ) (s : Handlers) : Handlers → Type 0 where
  alloc :
      (size pool : ℕ)
      → pool ≢ storage
      → Step storage s (record {
        in_use = (allocate storage pool size s.in_use).0;
        out = (allocate storage pool size s.in_use).1 ∷ s.out;
      })
  dealloc :
      (p : ℕ)
      → 0 < times p s.out
      → Step storage s
          (record { in_use = (deallocate storage p s.in_use).0; out = without p s.out })

pub data Reach (storage : ℕ) : Handlers → Type 0 where
  first : Reach storage (record { in_use = false; out = [] })
  next : {s t : Handlers} → Reach storage s → Step storage s t → Reach storage t

abbrev as_number : Bool → ℕ
as_number true = 1
as_number false = 0

at_most_one : (b : Bool) → as_number b ≤ 1
at_most_one true = omega arith
at_most_one false = omega arith

times-without : (p : ℕ) (ps : List ℕ) → 0 < times p ps → suc (times p (without p ps)) ≡ times p ps
times-without p [] h = absurd (omega arith)
times-without p (q ∷ ps) h = ground (arith, times-without p ps)

times-without_ne : (p a : ℕ) (ps : List ℕ) → p ≢ a → times a (without p ps) ≡ times a ps
times-without_ne p a [] h = refl
times-without_ne p a (q ∷ ps) h = ground (arith, times-without_ne p a ps h)

module _ (storage : ℕ) where
  Step-times :
      {s t : Handlers}
      → Step storage s t
      → times storage s.out ≡ as_number s.in_use
      → times storage t.out ≡ as_number t.in_use
  unfolding allocate deallocate
  Step-times {s} (Step.alloc size pool ne) h = elim (Bool-cases s.in_use) [
    | inl e ↦ rw e (rw (==_ne pool storage ne) (h ∙ ap as_number e))
    | inr e ↦ elim (Bool-cases (ltb size storage_size)) [
      | inl small ↦ rw (e, small) (rw (==_refl storage) (ap suc (h ∙ ap as_number e)))
      | inr large ↦ rw (e, large) (rw (==_ne pool storage ne) (h ∙ ap as_number e))
    ]
  ]
  Step-times {s} (Step.dealloc p out) h = elim (ℕ_discrete p storage) [
    | yes same ↦ rw same (
        rw (==_refl storage) (
          omega (
            arith,
            h,
            at_most_one s.in_use,
            times-without storage s.out (subst (λ (a : ℕ). 0 < times a s.out) same out),
          )))
    | no other ↦ rw (==_ne p storage other) (times-without_ne p storage s.out other ∙ h)
  ]

  Reach-times : {s : Handlers} → Reach storage s → times storage s.out ≡ as_number s.in_use
  Reach-times Reach.first = refl
  Reach-times (Reach.next r st) = Step-times st (Reach-times r)

  -- However handlers allocate and release, the storage is out once at most, and exactly while `in_use_` is set; so it
  -- is never given while somebody has it.
  pub storage_exclusive :
      {s : Handlers}
      → Reach storage s
      → (times storage s.out ≤ 1)
        × (s.in_use ≡ true → times storage s.out ≡ 1)
        × (s.in_use ≡ false → times storage s.out ≡ 0)
  storage_exclusive {s} r = (
    omega (arith, Reach-times r, at_most_one s.in_use),
    λ h. Reach-times r ∙ ap as_number h,
    λ h. Reach-times r ∙ ap as_number h,
  )
