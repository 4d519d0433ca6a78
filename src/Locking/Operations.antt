-- ===== src/Locking/Operations.antt =====
-- The methods that a thread may call, with what their tests give, and threads that call any of them one after another,
-- as the handlers of packets and of sessions do: none of these holds a lock between two calls.
use model_lib.Common.{ℕ, Bool, Option, List, [], map, get_or}
use model_lib.Locking.{Script, one_by_one, RoomField, Thread, calls}
use model_lib.Locking.Rooms.{
  Methods, set_field_script, get_field_script, send_packet_script, set_status_script,
  get_users_script, look_up_script, start_mm_script, stop_mm_script, get_mm_time_script,
  for_each_user_script, add_usr_script, remove_usr_script, get_criteria_script, get_mm_point_script,
  user_join_room_script, get_mm_rooms_script, remove_room_script, get_room_by_id_script,
}
use model_lib.Locking.Users.{
  set_state_script, get_state_script, reset_script, set_session_script, count_script,
  send_server_packet_script, send_global_packet_script, get_user_id_array_script, add_user_script,
  create_user_script, remove_user_script,
}

pub data Operation : Type 0 where
  set_field get_field : RoomField → ℕ → Operation
  send_packet : Bool → ℕ → List ℕ → Operation
  set_status : Bool → Bool → ℕ → List ℕ → Operation
  get_users look_up get_mm_time : ℕ → Operation
  start_mm stop_mm : Bool → ℕ → Operation
  for_each_user get_criteria get_mm_point : ℕ → List ℕ → Operation
  add_usr : ℕ → ℕ → Operation
  remove_usr : Bool → Bool → ℕ → ℕ → List ℕ → Operation
  user_join_room : Bool → Bool → Bool → Bool → ℕ → ℕ → Operation
  get_mm_rooms : List (ℕ × Bool × Bool × List ℕ) → Operation
  remove_room get_room_by_id : Operation
  set_state : Bool → ℕ → Operation
  get_state reset set_session : ℕ → Operation
  count get_user_id_array : Operation
  send_server_packet send_global_packet : Bool → List ℕ → Operation
  add_user : Bool → Option ℕ → Operation
  create_user : Bool → Bool → Bool → ℕ → Option ℕ → Operation
  remove_user : Bool → ℕ → Operation

module _ (methods : Methods) where
  abbrev pub script : Operation → Script
  script (Operation.set_field f r) = set_field_script f r
  script (Operation.get_field f r) = get_field_script f r
  script (Operation.send_packet v r us) = send_packet_script v r us
  script (Operation.set_status b v r us) = set_status_script b v r us
  script (Operation.get_users r) = get_users_script r
  script (Operation.look_up r) = look_up_script r
  script (Operation.get_mm_time r) = get_mm_time_script r
  script (Operation.start_mm b r) = start_mm_script b r
  script (Operation.stop_mm b r) = stop_mm_script b r
  script (Operation.for_each_user r us) = for_each_user_script methods r us
  script (Operation.get_criteria r us) = get_criteria_script methods r us
  script (Operation.get_mm_point r us) = get_mm_point_script methods r us
  script (Operation.add_usr r u) = add_usr_script methods r u
  script (Operation.remove_usr a b r u us) = remove_usr_script methods a b r u us
  script (Operation.user_join_room a b c d r u) = user_join_room_script methods a b c d r u
  script (Operation.get_mm_rooms rooms) = get_mm_rooms_script methods rooms
  script Operation.remove_room = remove_room_script
  script Operation.get_room_by_id = get_room_by_id_script
  script (Operation.set_state b u) = set_state_script b u
  script (Operation.get_state u) = get_state_script u
  script (Operation.reset u) = reset_script u
  script (Operation.set_session u) = set_session_script u
  script Operation.count = count_script
  script Operation.get_user_id_array = get_user_id_array_script
  script (Operation.send_server_packet v us) = send_server_packet_script v us
  script (Operation.send_global_packet v us) = send_global_packet_script v us
  script (Operation.add_user b old) = add_user_script methods b old
  script (Operation.create_user a b c u old) = create_user_script methods a b c u old
  script (Operation.remove_user b u) = remove_user_script methods b u

  abbrev pub thread : List Operation → Thread
  thread ops = record { held = []; rest = calls (one_by_one (map script ops)) [] }

  -- A thread for each list of methods; those beyond have nothing to do.
  abbrev pub start : List (List Operation) → ℕ → Thread
  start programs i = thread (get_or programs i [])
