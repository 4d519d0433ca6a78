-- ===== src/Locking/Rooms.antt =====
-- src/VChatLib/VChatRoom.h, VChatRoom.cpp, VChatRoomManager.h: what the methods of a room and of the manager of the rooms
-- lock and touch. `r` is the room, and `us` its users when they are gone through; a Boolean is what a test gives. An access
-- that only repeats one under the same guard is left out.
use model_lib.Common.{ℕ, Bool, true, false, not, List, [], ◌∷◌, map, if◌then◌else◌}
use model_lib.Locking.{
  Script, ◌then◌, one_by_one, reads, writes, read_locked, write_locked, RoomField, Location,
  users_of, field_of, room, room_manager,
}

-- Methods of `VChatUser` that the repository calls and does not define.
pub record Methods : Type 0 where
  pub set_room : ℕ → Script
  pub reset_room : ℕ → Script
  pub join_null_room : ℕ → Script
  pub close : ℕ → Script
  pub set_session_ex : ℕ → Script  -- with the setters after it in `CreateUser`
  pub get_match_making_point : ℕ → Script
  pub handler : ℕ → Script  -- what `ForEachUser` is called with

abbrev pub when : Bool → Script → Script
when true s = s
when false s = Script.stop

abbrev pub nobody : List ℕ → Bool
nobody [] = true
nobody (u ∷ us) = false

-- `SetId`, `SetGameMode`, `SetServerId`
unfoldable pub set_field_script : RoomField → ℕ → Script
set_field_script f r = write_locked (room r) (writes (field_of f r))

-- `GetId`, `GetGameMode`, `GetServerId`, `GetStatus`: they return a reference, which the caller reads when the lock is
-- gone.
unfoldable pub get_field_script : RoomField → ℕ → Script
get_field_script f r = read_locked (room r) Script.stop then reads (field_of f r)

abbrev pub set_id_script : ℕ → Script
set_id_script r = set_field_script RoomField.id r

abbrev pub set_game_mode_script : ℕ → Script
set_game_mode_script r = set_field_script RoomField.game_mode r

abbrev pub set_server_id_script : ℕ → Script
set_server_id_script r = set_field_script RoomField.server_id r

abbrev pub get_game_mode_script : ℕ → Script
get_game_mode_script r = get_field_script RoomField.game_mode r

abbrev pub get_server_id_script : ℕ → Script
get_server_id_script r = get_field_script RoomField.server_id r

abbrev pub get_status_script : ℕ → Script
get_status_script r = get_field_script RoomField.status r

-- `VUser::SendBuffer` and `SendData` of a user
unfoldable pub send_script : ℕ → Script
send_script u = reads (Location.session_of u)

unfoldable pub send_packet_script : Bool → ℕ → List ℕ → Script
unfolding send_script
send_packet_script is_valid r us =
    when is_valid (read_locked (room r) (reads (users_of r) then one_by_one (map send_script us)))

-- The guard is unlocked before the notice is sent.
unfoldable pub set_status_script : Bool → Bool → ℕ → List ℕ → Script
unfolding send_packet_script
set_status_script found is_valid r us =
    let status = field_of RoomField.status r in
    write_locked (room r) (writes status then reads status)
    then when found (send_packet_script is_valid r us)

unfoldable pub get_users_script : ℕ → Script
get_users_script r = write_locked (room r) (reads (users_of r))

-- `FindUserByID` and `GetUserCount`
unfoldable pub look_up_script : ℕ → Script
look_up_script r = read_locked (room r) (reads (users_of r))

unfoldable pub start_mm_script : Bool → ℕ → Script
start_mm_script queued r =
    let status = field_of RoomField.status r in
    let start_time = field_of RoomField.mm_start_time r in
    write_locked (room r)
      (reads status then when (not queued) (writes status then writes start_time))

unfoldable pub stop_mm_script : Bool → ℕ → Script
stop_mm_script queued r =
    let status = field_of RoomField.status r in
    write_locked (room r) (reads status then when queued (writes status))

unfoldable pub get_mm_time_script : ℕ → Script
get_mm_time_script r = reads (field_of RoomField.mm_start_time r)

-- The mode and the server of a room that has none.
unfoldable pub set_both_script : ℕ → Script
unfolding set_field_script
set_both_script r = set_game_mode_script r then set_server_id_script r

module _ (methods : Methods) where
  unfoldable pub for_each_user_script : ℕ → List ℕ → Script
  for_each_user_script r us =
      read_locked (room r) (reads (users_of r) then one_by_one (map methods.handler us))

  unfoldable pub add_usr_script : ℕ → ℕ → Script
  add_usr_script r u = write_locked (room r) (
      writes (field_of RoomField.status r)
      then (writes (users_of r)
          then (writes (field_of RoomField.server_id r) then methods.set_room u)))

  -- `there`: the user is in the room; `queued`: the room is in the queue; `us`: the users that stay.
  unfoldable pub remove_usr_script : Bool → Bool → ℕ → ℕ → List ℕ → Script
  unfolding send_script
  remove_usr_script there queued r u us =
      let status = field_of RoomField.status r in
      let unset =
        writes (field_of RoomField.server_id r) then writes (field_of RoomField.game_mode r) in
      let tell = one_by_one (map send_script us) in
      write_locked (room r) (
        reads (users_of r)
        then when there (
            writes (users_of r)
            then (when (nobody us) unset
                then (methods.reset_room u
                    then (reads status then (when queued tell then writes status))))))

  unfoldable pub get_criteria_script : ℕ → List ℕ → Script
  get_criteria_script r us =
      let points = one_by_one (map methods.get_match_making_point us) in
      read_locked (room r) (
        reads (users_of r)
        then when (not (nobody us)) (
            reads (field_of RoomField.server_id r)
            then (reads (field_of RoomField.game_mode r) then points)))

  unfoldable pub get_mm_point_script : ℕ → List ℕ → Script
  get_mm_point_script r us =
      read_locked (room r)
        (reads (users_of r) then one_by_one (map methods.get_match_making_point us))

  -- To a room that is there: `no_mode` and `no_server` are whether what it has is -1.
  unfoldable pub join_listed_script : Bool → Bool → ℕ → ℕ → Script
  unfolding add_usr_script get_field_script set_both_script
  join_listed_script no_mode no_server r u =
      let server = get_server_id_script r then when no_server (set_both_script r) in
      add_usr_script r u
      then (get_game_mode_script r then (if no_mode then set_both_script r else server))

  -- To a new room.
  unfoldable pub join_new_script : ℕ → ℕ → Script
  unfolding add_usr_script set_field_script
  join_new_script r u =
      add_usr_script r u
      then (set_id_script r then (set_game_mode_script r then writes Location.all_rooms))

  -- `no_id`: the id is -1; `found`: there is a room of the id, and `r` is that room or the new one.
  unfoldable pub user_join_room_script : Bool → Bool → Bool → Bool → ℕ → ℕ → Script
  unfolding join_listed_script join_new_script
  user_join_room_script no_id found no_mode no_server r u =
      let join = if found then join_listed_script no_mode no_server r u else join_new_script r u in
      when (not no_id) (write_locked room_manager (reads Location.all_rooms then join))

  -- A room of the manager as `GetMMRooms` finds it: whether its mode is one of match-making, whether it is queued, and
  -- its users.
  unfoldable pub visit_script : ℕ × Bool × Bool × List ℕ → Script
  unfolding get_field_script get_criteria_script
  visit_script (r, is_mm, queued, us) =
      get_game_mode_script r
      then when is_mm (get_status_script r then when queued (get_criteria_script r us))

  unfoldable pub get_mm_rooms_script : List (ℕ × Bool × Bool × List ℕ) → Script
  unfolding visit_script
  get_mm_rooms_script rooms =
      write_locked room_manager (reads Location.all_rooms then one_by_one (map visit_script rooms))

unfoldable pub remove_room_script : Script
remove_room_script = write_locked room_manager (writes Location.all_rooms)

unfoldable pub get_room_by_id_script : Script
get_room_by_id_script = write_locked room_manager (reads Location.all_rooms)
