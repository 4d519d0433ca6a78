-- ===== src/Examples/RingBuffer.antt =====
-- src/VCommon/VAllocatorHandler.h, `SafeRingBuffer`: concrete buffers and schedules.
use model_lib.Common.{ℕ, ◌≡◌, refl, true, false, [], ◌∷◌, arith}
use model_lib.Common.Int.{pos, negsuc}
use model_lib.RingBuffer.{RingBuffer, new_buffer, resize}
use model_lib.RingBuffer.Sealed.{pushes, pops, pushed, popped, calls, calls-one_shot}
use model_lib.RingBuffer.Threads.{
  Pc, System, Step, Reach, begin_push, begin_pop, enter_push, miss_pop,
}
use model_lib.RingBuffer.Threads.Exclusion.{start, mutual_exclusion}

abbrev open_buffer : RingBuffer
open_buffer = record { slots = 7 ∷ 0 ∷ 0 ∷ []; signal = pos 1; size = 3; cur = 1 }

calls-one_shot_example :
    (calls (pops ∷ pushes 4 ∷ pops ∷ pushes 5 ∷ []) (resize 250 new_buffer)).1
    ≡ popped 0 ∷ pushed true ∷ popped 0 ∷ pushed false ∷ []
calls-one_shot_example = calls-one_shot 250 (pops ∷ pushes 4 ∷ pops ∷ pushes 5 ∷ []) (omega arith)

-- Thread 0 draws 0 and is inside `push`; thread 1 draws -1 in `pop` and leaves.
abbrev contended : System
contended = record {
  mem = record {
    buf = record { slots = 7 ∷ 0 ∷ 0 ∷ []; signal = negsuc 0; size = 3; cur = 1 };
    won = 0;
  };
  threads = Pc.in_push 9 ∷ Pc.leave ∷ [];
}

contended-Reach : Reach (start 2 open_buffer) contended
contended-Reach =
    Reach.next
      (Reach.next
        (Reach.next (Reach.next Reach.here (Step.pick 0 (omega arith) (begin_push 9)))
          (Step.pick 1 (omega arith) begin_pop))
        (Step.pick 0 (omega arith) (enter_push refl)))
      (Step.pick 1 (omega arith) (miss_pop refl))

mutual_exclusion_example : ◌≡◌ {A = ℕ} 0 0
mutual_exclusion_example =
    mutual_exclusion 2 open_buffer refl contended-Reach 0 0 (omega arith) (omega arith) refl refl
