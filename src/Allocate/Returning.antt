-- ===== src/Allocate/Returning.antt =====
-- `DeAllocate` of a block.
use model_lib.Common.{ℕ, zero, suc, ◌^◌, ◌≤◌, ◌≡◌, ◌≢◌, refl, inl, inr, some, arith, Option-cases}
use model_lib.Allocate.{Manager, deallocate, find_slot, free}
use model_lib.Allocate.Slots.{find_slot-least}

-- What `DeAllocate` of a block leaves of every other.
pub deallocate_others :
    (size p q : ℕ) (m m' : Manager)
    → deallocate p size m ≡ some m'
    → q ≢ p
    → m'.heap.capacity q ≡ m.heap.capacity q
unfolding deallocate free
deallocate_others size zero q m m' e ne = ground arith
deallocate_others size (suc p) q m m' e ne = elim (Option-cases (find_slot size)) [
  | inl none_found ↦ absurd (ground (arith, none_found))
  | inr (slot, found) ↦ ground (arith, found)
]

-- It returns.
pub deallocate_runs :
    (size p : ℕ) (m : Manager) → size ≤ 2 ^ 31 → (m' : Manager) × (deallocate p size m ≡ some m')
unfolding deallocate
deallocate_runs size zero m small = (m, refl)
deallocate_runs size (suc p) m small = elim (find_slot-least size) [
  | inr (big, _) ↦ absurd (omega arith)
  | inl (_, (slot, e, _, _)) ↦ elim (Option-cases (deallocate (suc p) size m)) [
    | inl gone ↦ absurd (ground (arith, e, gone))
    | inr found ↦ found
  ]
]
