-- ===== src/Examples/Locking.antt =====
-- Threads over rooms and users: src/VChatLib/VChatRoom.h, VUserManager.cpp.
use model_lib.Common.{ℕ, ◌+◌, ◌≡◌, refl, inl, inr, true, false, List, [], ◌∷◌, All, arith}
use model_lib.Locks.{shared}
use model_lib.Locking.{
  Script, Thread, Location, RoomField, user, reads, write_locked, room_manager, after, update, Step,
  Steps, calls, Holds, room,
}
use model_lib.Locking.Rooms.{
  Methods, set_field_script, get_field_script, get_mm_rooms_script, visit_script,
  get_criteria_script,
}
use model_lib.Locking.Operations.{Operation, start}
use model_lib.Locking.Exclusion.{update-cases}
use model_lib.Locking.Runs.{left}
use model_lib.Locking.Together.{IsOwn, no_deadlock}

abbrev ask_state : ℕ → Script
ask_state u = write_locked (user u) (reads (Location.state_of u))

abbrev use_rooms : ℕ → Script
use_rooms u = write_locked room_manager (reads Location.all_rooms)

abbrev methods : Methods
methods = record {
  set_room = ask_state;
  reset_room = ask_state;
  join_null_room = use_rooms;
  close = ask_state;
  set_session_ex = ask_state;
  get_match_making_point = ask_state;
  handler = ask_state;
}

-- One thread asks for the status of room 5, another sets it, and a third lists the rooms that are queued, of which room
-- 5 is one, without users.
abbrev programs : List (List Operation)
programs =
    (Operation.get_field RoomField.status 5 ∷ [])
    ∷ (Operation.set_field RoomField.status 5 ∷ [])
    ∷ (Operation.get_mm_rooms ((5, true, true, []) ∷ []) ∷ [])
    ∷ []

programs-IsOwn : All (All IsOwn) programs
unfolding get_mm_rooms_script visit_script get_criteria_script
programs-IsOwn = (((λ a b. refl), tt), (((λ a b. refl), tt), (((λ a b. refl), tt), tt)))

abbrev first_locks : ℕ → Thread
first_locks = update (start methods programs) 0 (after (start methods programs 0))

abbrev first_unlocks : ℕ → Thread
first_unlocks = update first_locks 0 (after (first_locks 0))

abbrev second_locks : ℕ → Thread
second_locks = update first_unlocks 1 (after (first_unlocks 1))

nothing_held : (j : ℕ) → ¬ Holds (first_unlocks j).held shared (room 5)
unfolding calls after get_field_script set_field_script
nothing_held j h = elim (update-cases first_locks 0 (after (first_locks 0)) j) [
  | inl (at, e) ↦ rw e at h
  | inr (off, e) ↦
      elim (update-cases (start methods programs) 0 (after (start methods programs 0)) j) [
        | inl (at, e') ↦ off at
        | inr (off', e') ↦ rw e' at (rw e at h)
      ]
]

programs-run : Steps false 3 (start methods programs) 3 second_locks
unfolding calls after get_field_script set_field_script
programs-run = Steps.first (Step.pick 0 (omega arith) ((λ j h. h), λ p. cc)) (
    Steps.first (Step.pick 0 (omega arith) tt)
      (Steps.first (Step.pick 1 (omega arith) (nothing_held, λ p. cc)) (Steps.here second_locks)))

no_deadlock_example :
    (t : ℕ → Thread) × Steps true 3 second_locks (left 3 second_locks) t
    × ((i : ℕ) → (t i).rest ≡ [])
    × (3 + left 3 second_locks ≡ left 3 (start methods programs))
no_deadlock_example = no_deadlock methods false programs programs-IsOwn programs-run
