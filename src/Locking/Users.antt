-- ===== src/Locking/Users.antt =====
-- src/VNetWork/VUser.cpp and src/VChatLib/VUserManager.cpp: what the methods of a user and of the manager of the users lock
-- and touch.
use model_lib.Common.{ℕ, Bool, false, Option, none, some, List, map, if◌then◌else◌}
use model_lib.Locking.{
  Script, ◌then◌, one_by_one, reads, writes, read_locked, write_locked, Location, user,
  user_manager,
}
use model_lib.Locking.Rooms.{Methods, when, send_script}

unfoldable pub set_state_script : Bool → ℕ → Script
set_state_script logout u =
    let state = Location.state_of u in
    write_locked (user u)
      (writes state then (reads state then when logout (writes (Location.session_of u))))

unfoldable pub get_state_script : ℕ → Script
get_state_script u = write_locked (user u) (reads (Location.state_of u))

unfoldable pub reset_script : ℕ → Script
reset_script u = write_locked (user u) (writes (Location.state_of u))

unfoldable pub set_session_script : ℕ → Script
set_session_script u = write_locked (user u) (writes (Location.session_of u))

-- `GetUser` and `GetUserCount`, and what asks for the count alone: `CanCreateUser` and `IsEmpty`
unfoldable pub count_script : Script
count_script = read_locked user_manager (reads Location.all_users)

unfoldable pub send_server_packet_script : Bool → List ℕ → Script
unfolding send_script
send_server_packet_script is_valid us =
    when is_valid
      (read_locked user_manager (reads Location.all_users then one_by_one (map send_script us)))

-- The lock is taken before the buffer is tested.
unfoldable pub send_global_packet_script : Bool → List ℕ → Script
unfolding send_script
send_global_packet_script is_valid us =
    read_locked user_manager
      (when is_valid (reads Location.all_users then one_by_one (map send_script us)))

unfoldable pub get_user_id_array_script : Script
get_user_id_array_script = read_locked user_manager (reads Location.all_users)

module _ (methods : Methods) where
  -- A user that leaves its room and closes: `JoinRoom(NullRoom)` and `Close()`.
  unfoldable pub put_out_script : ℕ → Script
  put_out_script u = methods.join_null_room u then methods.close u

  -- `old`: the user that was there under the id.
  unfoldable pub replace_script : Option ℕ → Script
  unfolding put_out_script set_state_script
  replace_script none = Script.stop
  replace_script (some old) = put_out_script old then set_state_script false old

  unfoldable pub add_user_script : Bool → Option ℕ → Script
  unfolding count_script replace_script
  add_user_script has_room old =
      count_script
      then when has_room
          (write_locked user_manager (writes Location.all_users then replace_script old))

  -- `still`: there is room at the second test, that of `AddUser`.
  unfoldable pub create_user_script : Bool → Bool → Bool → ℕ → Option ℕ → Script
  unfolding count_script add_user_script
  create_user_script has_room memory still u old =
      count_script
      then when has_room (when memory (methods.set_session_ex u then add_user_script still old))

  unfoldable pub remove_user_script : Bool → ℕ → Script
  unfolding put_out_script
  remove_user_script there u =
      write_locked user_manager
        (reads Location.all_users then when there (put_out_script u then writes Location.all_users))
