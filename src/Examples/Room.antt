-- ===== src/Examples/Room.antt =====
-- src/VChatLib/VChatRoom.cpp and VChatRoomManager.h: rooms of a few users.
use model_lib.Common.{ℕ, ◌≡◌, ◌≢◌, refl, true, false, [], ◌∷◌, ◌++◌, arith}
use model_lib.Room.{
  Room, set_room, minus_one, new_room, add_usr, remove_usr, start_mm, send_packet, start_mm_timer,
  without,
}
use model_lib.ChatProcess.{room_enter_mm_queue}
use model_lib.RoomManager.{RoomManager, get_room_by_id, user_join_room}
use model_lib.RoomManager.Joining.{IsValid, occupants}
use model_lib.RoomManager.History.{join, leave, start, room_calls, room_calls-IsValid}
use model_lib.RoomManager.Occupants.{user_join_room-joins}
use model_lib.ChatProcess.Timer.{Timers, hear_all, Agrees}
use model_lib.ChatProcess.Queue.{Step, Steps, Steps-Agrees}

abbrev pair : Room
pair = record {
  id = 12;
  server_id = 3;
  game_mode = 2;
  status = 0;
  mm_start_time = 0;
  users = 4 ∷ 5 ∷ [];
}

abbrev no_rooms : RoomManager
no_rooms = record { rooms = []; store = λ a. new_room 0; next = 0 }

no_rooms-IsValid : IsValid no_rooms
unfolding get_room_by_id
no_rooms-IsValid = record {
  distinct = tt;
  made = tt;
  own_id = λ id a h. absurd (cc h);
  tidy = λ a h. absurd (omega arith);
}

-- 4 and 5 meet in room 12 and queue; both leave and 6 comes.
room_calls-IsValid_example : IsValid (
    room_calls
      (λ p. 3)
      (λ a b. true)
      (join 0 4 12 2 ∷ join 0 5 12 1 ∷ start 0 77 ∷ leave 0 4 ∷ leave 0 5 ∷ join 0 6 12 1 ∷ [])
      no_rooms)
room_calls-IsValid_example =
    room_calls-IsValid (λ p. 3) (λ a b. true)
      (join 0 4 12 2 ∷ join 0 5 12 1 ∷ start 0 77 ∷ leave 0 4 ∷ leave 0 5 ∷ join 0 6 12 1 ∷ [])
      no_rooms no_rooms-IsValid

user_join_room-joins_example :
    (12 ≢ minus_one
      → (occupants 12 (user_join_room (λ p. 3) (λ a b. true) 0 4 12 2 no_rooms).0
          ≡ occupants 12 no_rooms ++ 4 ∷ [])
        × ((j : ℕ)
            → 12 ≢ j
            → occupants j (user_join_room (λ p. 3) (λ a b. true) 0 4 12 2 no_rooms).0
              ≡ occupants j no_rooms)
        × ((user_join_room (λ p. 3) (λ a b. true) 0 4 12 2 no_rooms).1 ≡ set_room 4 ∷ []))
    × (12 ≡ minus_one
        → ((user_join_room (λ p. 3) (λ a b. true) 0 4 12 2 no_rooms).0 ≡ no_rooms)
          × ((user_join_room (λ p. 3) (λ a b. true) 0 4 12 2 no_rooms).1 ≡ []))
user_join_room-joins_example =
    user_join_room-joins (λ p. 3) (λ a b. true) 0 4 12 2 no_rooms no_rooms-IsValid

-- User 6 joins the pair, and 4 leaves.
-- The room is queued, 5 goes, and 6 comes.
abbrev off : Timers
off p = false

abbrev queued : Room
queued = (start_mm 77 pair).0

abbrev on : Timers
on = hear_all (send_packet start_mm_timer queued) off

abbrev alone : Room
alone = (remove_usr 5 queued).0

abbrev noticed : Timers
noticed = hear_all (remove_usr 5 queued).1 on

abbrev joined : Room
joined = (add_usr (λ p. 3) 6 alone).0

abbrev heard : Timers
heard = hear_all (add_usr (λ p. 3) 6 alone).1 noticed

queue_steps : Steps pair off joined heard
unfolding room_enter_mm_queue start_mm send_packet remove_usr without add_usr
queue_steps =
    Steps.then_step
      (Steps.then_step
        (Steps.then_step Steps.here (
          Step.enter {r = pair} {r' = queued} {f = off} {es = send_packet start_mm_timer queued} 77
            refl))
        (Step.part {r = queued} {f = on} 5))
      (Step.join {r = alone} {f = noticed} (λ p. 3) 6 refl refl)

Steps-Agrees_example : Agrees joined heard
Steps-Agrees_example = Steps-Agrees queue_steps (refl, (refl, tt))
