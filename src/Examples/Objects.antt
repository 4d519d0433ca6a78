-- ===== src/Examples/Objects.antt =====
-- src/VCommon/VObjectAllocator.h, VAllocatorHandler.h, VCommonDefines.h: objects, containers and buffers at concrete inputs.
use model_lib.Common.{
  ℕ, suc, ◌+◌, ◌-◌, ◌≡◌, refl, true, Option, none, some, ◌>>=◌, [], ◌∷◌, ◌==◌, arith, ltb, ◌&&◌,
  ◌||◌,
}
use model_lib.Allocate.{
  Manager, new_manager, allocate, deallocate, find_slot, pop_row, push_row, malloc, free,
}
use model_lib.RingBuffer.{push, pop}
use model_lib.Allocate.History.{new_manager-Inv}
use model_lib.Objects.{Objects, create, destroy}
use model_lib.Objects.Housed.{Run, starts, creates, destroys, IsHoused, objects-Housed}
use model_lib.Objects.Counted.{
  Methods, Counted, intrusive_ptr_add_ref, intrusive_ptr_release, released,
}
use model_lib.SimpleBuffer.Lifetime.{Lives, place, place_joined, placed-Lives}
use model_lib.Examples.Allocate.{small, no_blocks, no_blocks-HeapInv}

abbrev fresh_manager : Manager
fresh_manager = new_manager small no_blocks

abbrev nothing : Objects
nothing = record { manager = fresh_manager; trace = [] }

abbrev or_nothing : Option (Objects × ℕ) → Objects × ℕ
or_nothing none = (nothing, 0)
or_nothing (some r) = r

abbrev or_none : Option Objects → Objects
or_none none = nothing
or_none (some o) = o

-- Two objects of 100 bytes, of which the first is destroyed.
abbrev one : Objects × ℕ
one = or_nothing (create 100 (7 ∷ []) nothing)

abbrev two : Objects × ℕ
two = or_nothing (create 100 [] one.0)

abbrev second_left : Objects
second_left = or_none (destroy 100 1 two.0)

two_objects : Run 100 fresh_manager two.0 (2 ∷ 1 ∷ [])
unfolding create allocate find_slot pop_row malloc new_manager pop
two_objects = creates [] (creates (7 ∷ []) starts refl) refl

objects-Housed_example : IsHoused 100 second_left (2 ∷ [])
unfolding create allocate find_slot pop_row malloc new_manager pop destroy deallocate push_row push
    free
objects-Housed_example =
    objects-Housed 100 fresh_manager second_left (2 ∷ []) (omega arith)
      (new_manager-Inv small no_blocks no_blocks-HeapInv)
      (destroys 1 two_objects (omega arith) refl)

-- An object whose state is its count.
abbrev counting : Methods ℕ
counting = record { add_ref = suc; decrease_ref = λ s. (s - 1, s - 1 == 0) }

-- The pointer to the object at 1 is copied, and both go.
abbrev held : Counted ℕ
held = record { object = 1; objects = one.0 }

abbrev released_twice : Option (Counted ℕ)
released_twice = do
  c ← intrusive_ptr_release counting 100 1 (intrusive_ptr_add_ref counting 100 1 held)
  intrusive_ptr_release counting 100 1 c

abbrev object_of : Option (Counted ℕ) → Option ℕ
object_of none = none
object_of (some c) = some c.object

counted_down : object_of released_twice ≡ some 0
unfolding intrusive_ptr_add_ref intrusive_ptr_release released destroy deallocate find_slot
counted_down = refl

-- Two parts of 14 and 5 bytes, and one of 3.
placed-Lives_example :
    Lives (ltb 0 14 && true) 14 fresh_manager (place true 14 fresh_manager)
    × Lives
        (ltb 0 (14 + 5) && (true || true))
        (14 + 5)
        fresh_manager
        (place_joined true 14 true 5 fresh_manager)
placed-Lives_example =
    placed-Lives small no_blocks [] fresh_manager true true 14 5 no_blocks-HeapInv refl
      (omega arith)
