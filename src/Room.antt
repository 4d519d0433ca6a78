-- ===== src/Room.antt =====
-- src/VChatLib/VChatRoom.h, VChatRoom.cpp: `VChatRoom`. Users are named by their addresses; what a room asks
-- of them (`GetServerID`, `GetPlayerID`, `GetMatchMakingPoint`) is a parameter. A `VInt32` is the number of its bits.
-- Each method holds the lock of the room, so a method is one step.
pub mod Criteria
use model_lib.Common.{
  ℕ, zero, suc, ◌+◌, ◌-◌, ◌/◌, ◌%◌, ◌^◌, Bool, true, false, not, Option, none, some, List, [], ◌∷◌,
  ◌++◌, map, ◌==◌, ◌||◌, ltb, leb, if◌then◌else◌, length,
}
use model_lib.Common.Int.{ℤ}
use model_lib.Common.Page.{page, starts_below, upper}

-- -1 as a `VInt32` and as the `VInt8` of the mode.
abbrev pub minus_one : ℕ
minus_one = 2 ^ 32 - 1

abbrev pub no_mode : ℕ
no_mode = 255

-- ROOM_NORMAL, ROOM_ENQUEUE_MM and ROOM_FOUND_MM; `SetStatus` takes any number.
abbrev pub room_normal : ℕ
room_normal = 0

abbrev pub room_enqueue_mm : ℕ
room_enqueue_mm = 1

abbrev pub room_found_mm : ℕ
room_found_mm = 2

pub record Room : Type 0 where
  pub id : ℕ
  pub server_id : ℕ
  pub game_mode : ℕ
  pub status : ℕ
  pub mm_start_time : ℕ
  pub users : List ℕ

pub data Notice : Type 0 where
  mm_room_found start_mm_timer stop_mm_timer : Notice

-- What a room does to a user.
pub data Effect : Type 0 where
  set_room : ℕ → Effect
  reset_room : ℕ → Effect
  send : Notice → ℕ → Effect

-- `VChatRoom()`: the status is what the memory held, the time that of no clock.
unfoldable pub new_room : ℕ → Room
new_room status = record {
  id = 0;
  server_id = minus_one;
  game_mode = no_mode;
  status = status;
  mm_start_time = 0;
  users = [];
}

unfoldable pub set_id : ℕ → Room → Room
set_id id r = record r { id = id }

-- The mode is cut to eight bits.
unfoldable pub set_game_mode : ℕ → Room → Room
set_game_mode mode r = record r { game_mode = mode % 2 ^ 8 }

unfoldable pub set_server_id : ℕ → Room → Room
set_server_id id r = record r { server_id = id }

unfoldable pub is_empty : List ℕ → Bool
is_empty [] = true
is_empty (p ∷ ps) = false

-- `SendPacket`: to every user, in order.
unfoldable pub send_packet : Notice → Room → List Effect
send_packet n r = map (send n) r.users

unfoldable pub set_status : ℕ → Room → Room × List Effect
unfolding send_packet
set_status value r =
    let r' = record r { status = value } in
    (r', if value == room_found_mm then send_packet mm_room_found r' else [])

unfoldable pub add_usr : (ℕ → ℕ) → ℕ → Room → Room × List Effect
add_usr server_of p r = (
  record r { status = room_normal; users = r.users ++ p ∷ []; server_id = server_of p },
  set_room p ∷ [],
)

-- `std::find`, and the users without what it finds.
unfoldable pub find : ℕ → List ℕ → Bool
find p [] = false
find p (q ∷ qs) = if q == p then true else find p qs

unfoldable pub erase : ℕ → List ℕ → List ℕ
erase p [] = []
erase p (q ∷ qs) = if q == p then qs else q ∷ erase p qs

-- The room with the users that are left; the last to leave takes the server and the mode along.
unfoldable pub without : List ℕ → Room → Room
unfolding is_empty
without users r =
    if is_empty users
    then record r { users = users; server_id = minus_one; game_mode = no_mode }
    else record r { users = users }

unfoldable pub remove_usr : ℕ → Room → Room × List Effect
unfolding find erase without
remove_usr p r =
    let users = erase p r.users in
    let told = (if r.status == room_enqueue_mm then map (send stop_mm_timer) users else []) in
    if find p r.users
    then (record (without users r) { status = room_normal }, reset_room p ∷ told)
    else (r, [])

unfoldable pub start_mm : ℕ → Room → Room × Bool
start_mm now r =
    if r.status == room_enqueue_mm
    then (r, false)
    else (record r { status = room_enqueue_mm; mm_start_time = now }, true)

unfoldable pub stop_mm : Room → Room × Bool
stop_mm r =
    if r.status == room_enqueue_mm then (record r { status = room_normal }, true) else (r, false)

-- Whole seconds, from a clock of microseconds that does not run back.
unfoldable pub get_mm_time : ℕ → Room → ℕ
get_mm_time now r = (now - r.mm_start_time) / 1000000 % 2 ^ 32

-- for (it …) nTotal += (*it)->GetMatchMakingPoint();
unfoldable pub add_points : (ℕ → ℕ) → ℕ → List ℕ → ℕ
add_points points total [] = total
add_points points total (p ∷ ps) = add_points points ((total + points p) % 2 ^ 32) ps

unfoldable pub get_mm_point : (ℕ → ℕ) → Room → ℕ
unfolding add_points is_empty
get_mm_point points r = if is_empty r.users then 0 else add_points points 0 r.users

unfoldable pub get_user_count : Room → ℕ
get_user_count r = length r.users % 2 ^ 32

-- The four words of `MMCriteria`.
pub record MmCriteria : Type 0 where
  pub server : ℕ
  pub mode : ℕ
  pub count : ℕ
  pub total : ℕ

-- A `VInt8` as a `VInt32`.
unfoldable pub sign_extend : ℕ → ℕ
sign_extend m = if ltb m 128 then m else m + (2 ^ 32 - 2 ^ 8)

unfoldable pub get_criteria : (ℕ → ℕ) → Room → Option MmCriteria
unfolding add_points is_empty sign_extend
get_criteria points r =
    if is_empty r.users
    then none
    else some (record {
      server = r.server_id;
      mode = sign_extend r.game_mode;
      count = length r.users % 2 ^ 32;
      total = add_points points 0 r.users;
    })

-- The two modes are constants of a header that is not in the repository.
unfoldable pub is_match_making_mode : ℕ → ℕ → ℕ → Bool
is_match_making_mode deathmatch base_protection mode = mode == deathmatch || mode == base_protection

unfoldable pub find_user_by_id : (ℕ → ℕ) → ℕ → List ℕ → Option ℕ
find_user_by_id player_id id [] = none
find_user_by_id player_id id (p ∷ ps) =
    if player_id p == id then some p else find_user_by_id player_id id ps

-- `GetUsers(nFrom, nTo)`
unfoldable pub get_users : ℤ → ℤ → Room → List ℕ
get_users from to r =
    let to' = upper to (length r.users) in
    if starts_below from to' then page (λ (p : ℕ). true) (λ (p : ℕ). p) from to' 0 r.users else []

-- A row of the match-making log. `match_type` and `result` are places in arrays of 5 and 2 names.
pub record LogRow : Type 0 where
  pub server : ℕ
  pub room1 : ℕ
  pub room2 : ℕ
  pub time1 : ℕ
  pub time2 : ℕ
  pub point1 : ℕ
  pub point2 : ℕ
  pub match_type : ℕ
  pub result : ℕ

-- For no second room its columns are 0.
unfoldable pub log_row : (ℕ → ℕ) → ℕ → Room → Option Room → ℕ → LogRow
unfolding get_user_count get_mm_time get_mm_point
log_row points now r room2 result = record {
  server = r.server_id;
  room1 = r.id;
  room2 = elim room2 [ none ↦ 0 | some s ↦ s.id ];
  time1 = get_mm_time now r;
  time2 = elim room2 [ none ↦ 0 | some s ↦ get_mm_time now s ];
  point1 = get_mm_point points r;
  point2 = elim room2 [ none ↦ 0 | some s ↦ get_mm_point points s ];
  match_type = get_user_count r - 1;
  result = result;
}

-- `WriteLogMatchMaking`
unfoldable pub write_log_match_making : (ℕ → ℕ) → ℕ → Option Room → Option Room → ℕ → Option LogRow
unfolding get_user_count log_row
write_log_match_making points now none room2 result = none
write_log_match_making points now (some r) room2 result =
    if leb (get_user_count r) 0 || ltb 5 (get_user_count r)
    then none
    else some (log_row points now r room2 result)
