-- ===== src/Allocate/Slots.antt =====
-- The size class that `FindSlot` chooses.
use native.Mathlib.Nat.{pow-le-pow_right}
use model_lib.Common.{
  ℕ, zero, suc, ◌+◌, ◌^◌, ◌≤◌, ◌<◌, ◌≡◌, refl, ◌⊎◌, inl, inr, none, some, ltb, arith, Bool-cases,
  ℕ_discrete, dec_lt, ltb→lt, lt→ltb,
}
use model_lib.Allocate.{find_slot_from, find_slot, block_size, max_slot}

low_next :
    (slot size : ℕ)
    → ((j : ℕ) → j < slot → 2 ^ j < size)
    → 2 ^ slot < size
    → (j : ℕ) → j < slot + 1
    → 2 ^ j < size
low_next slot size low here j lt = elim (ℕ_discrete j slot) [
  | yes e ↦ rw e here
  | no ne ↦ low j (omega arith)
]

-- From `slot` on, with fuel that reaches a power of two large enough.
find_slot_from-least :
    (fuel slot size top : ℕ)
    → top < slot + fuel
    → size ≤ 2 ^ top
    → ((j : ℕ) → j < slot → 2 ^ j < size)
    → (s : ℕ) × (find_slot_from fuel slot size ≡ some s)
      × (size ≤ 2 ^ s)
      × ((j : ℕ) → j < s → 2 ^ j < size)
unfolding find_slot_from
find_slot_from-least zero slot size top enough fits low =
    absurd (omega (arith, low top (omega arith)))
find_slot_from-least (suc fuel) slot size top enough fits low =
    elim (Bool-cases (ltb (2 ^ slot) size)) [
      | inl more ↦
          let (s, run, big, least) =
            find_slot_from-least fuel (slot + 1) size top (omega arith) fits
              (low_next slot size low (ltb→lt _ _ more)) in
          (s, rw more run, big, least)
      | inr done ↦ (slot, rw done, ground arith, low)
    ]

-- Past 2 ^ 31 the loop meets no end within the word.
find_slot_from-none :
    (fuel slot size : ℕ)
    → ((j : ℕ) → j < slot + fuel → 2 ^ j < size)
    → find_slot_from fuel slot size ≡ none
unfolding find_slot_from
find_slot_from-none zero slot size low = refl
find_slot_from-none (suc fuel) slot size low =
    rw (lt→ltb _ _ (low slot (omega arith)))
      (find_slot_from-none fuel (slot + 1) size (λ j lt. low j (omega arith)))

two_pos : 0 < 2
two_pos = omega arith

-- `FindSlot` returns for every size up to 2 ^ 31, and then the least class whose blocks are large
-- enough; for a larger size the loop does not end within the width of the word.
pub find_slot-least :
    (size : ℕ)
    → ((size ≤ 2 ^ 31)
        × ((s : ℕ) × (find_slot size ≡ some s) × (size ≤ 2 ^ s) × ((j : ℕ) → j < s → 2 ^ j < size)))
      ⊎ ((2 ^ 31 < size) × (find_slot size ≡ none))
unfolding find_slot
find_slot-least size = elim (dec_lt (2 ^ 31) size) [
  | yes big ↦ inr (
    big,
    find_slot_from-none 32 0 size
        (λ j lt. omega (arith, pow-le-pow_right two_pos {i = j} {j = 31} (omega arith))),
  )
  | no small ↦ inl (
    omega arith,
    find_slot_from-least 32 0 size 31 (omega arith) (omega arith) (λ j lt. elim lt [ ]),
  )
]

-- A block for up to 2 ^ 31 bytes has room for them.
pub block_size-enough :
    (size : ℕ) → size ≤ 2 ^ 31 → (room : ℕ) × (block_size size ≡ some room) × (size ≤ room)
unfolding block_size
block_size-enough size small = elim (find_slot-least size) [
  | inr (big, _) ↦ absurd (omega arith)
  | inl (_, (s, found, fits, _)) ↦ elim (Bool-cases (ltb s max_slot)) [
    | inl pool ↦ (2 ^ s, rw (found, pool) refl, fits)
    | inr heap ↦ (size, rw (found, heap) refl, omega arith)
  ]
]
