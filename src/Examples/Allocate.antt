-- ===== src/Examples/Allocate.antt =====
-- src/VCommon/VAllocatorHandler.h, `AllocateManager`: concrete histories.
use model_lib.Common.{ℕ, ◌^◌, ◌≤◌, ◌<◌, ◌≡◌, refl, ◌⊎◌, Option, none, some, List, [], ◌∷◌, arith}
use model_lib.Allocate.{
  Manager, Heap, new_manager, Platform, find_slot, allocate, deallocate, start, pop_row, push_row,
  malloc,
}
use model_lib.RingBuffer.{push, pop}
use model_lib.Allocate.Slots.{find_slot-least}
use model_lib.Allocate.Fresh.{HeapInv, Fresh}
use model_lib.Allocate.History.{Call, allocates, deallocates, starts, calls, calls-allocate}

find_slot-least_example :
    ((100 ≤ 2 ^ 31)
      × ((s : ℕ) × (find_slot 100 ≡ some s) × (100 ≤ 2 ^ s) × ((j : ℕ) → j < s → 2 ^ j < 100)))
    ⊎ ((2 ^ 31 < 100) × (find_slot 100 ≡ none))
find_slot-least_example = find_slot-least 100

slots : (find_slot 0 ≡ some 0) × (find_slot 64 ≡ some 6) × (find_slot 65 ≡ some 7)
unfolding find_slot
slots = (refl, refl, refl)

abbrev pub no_blocks : Heap
no_blocks = record { capacity = λ p. none; next = 1 }

pub no_blocks-HeapInv : HeapInv no_blocks
no_blocks-HeapInv = record { positive = omega arith; above = λ p h. refl }

-- One buffer of two places in each class.
abbrev pub small : Platform
small = record { max_thread = 1; default_size_pool = 2 }

abbrev or_blank : Option Manager → Manager
or_blank none = new_manager small no_blocks
or_blank (some m) = m

-- A block of 100 bytes is allocated and given back; it goes to the pool.
abbrev history : List Call
history = starts small ∷ allocates 100 ∷ deallocates 1 100 ∷ []

abbrev after_history : Manager
after_history = or_blank (calls history (new_manager small no_blocks))

calls-allocate_example : Fresh 100 after_history
unfolding new_manager allocate find_slot pop_row malloc deallocate push_row start pop push
calls-allocate_example =
    calls-allocate small no_blocks history after_history 100 no_blocks-HeapInv refl (omega arith)
