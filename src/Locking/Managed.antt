-- ===== src/Locking/Managed.antt =====
-- The methods of the managers, and so all that a thread may call.
use model_lib.Common.{
  ℕ, refl, inl, Bool, false, not, Option, none, some, List, [], ◌∷◌, map, arith, if◌then◌else◌,
}
use model_lib.Locks.{Side, exclusive, shared}
use model_lib.Locking.{
  ◌then◌, one_by_one, Hold, Location, RoomField, room_manager, user_manager, writes,
}
use model_lib.Locking.Ordered.{guard_of, Below, Ordered, Follows, then-Ordered, Ordered-Follows}
use model_lib.Locking.Rooms.{
  Methods, when, set_field_script, get_field_script, add_usr_script, set_both_script,
  join_listed_script, join_new_script, user_join_room_script, visit_script, get_mm_rooms_script,
  remove_room_script, get_room_by_id_script,
}
use model_lib.Locking.Users.{
  set_state_script, get_state_script, reset_script, set_session_script, count_script,
  send_server_packet_script, send_global_packet_script, get_user_id_array_script, put_out_script,
  replace_script, add_user_script, create_user_script, remove_user_script,
}
use model_lib.Locking.Discipline.{
  Disciplined, when-Ordered, if-Ordered, tell-Ordered, set_field-Ordered, get_field-Ordered,
  send_packet-Ordered, set_status-Ordered, get_users-Ordered, look_up-Ordered, start_mm-Ordered,
  stop_mm-Ordered, get_mm_time-Ordered, for_each_user-Ordered, add_usr-Ordered, remove_usr-Ordered,
  get_criteria-Ordered, get_mm_point-Ordered, visit-Ordered,
}
use model_lib.Locking.Operations.{Operation, script, thread}

abbrev in_rooms : List Hold
in_rooms = record { side = exclusive; mutex = room_manager } ∷ []

in_rooms-Below : Below 2 in_rooms
in_rooms-Below = (omega arith, tt)

abbrev in_users : Side → List Hold
in_users side = record { side = side; mutex = user_manager } ∷ []

in_users-Below : (side : Side) → Below 1 (in_users side)
in_users-Below side = (omega arith, tt)

set_state-Ordered :
    (held : List Hold) (logout : Bool) (u : ℕ)
    → Below 3 held
    → Ordered held (set_state_script logout u)
unfolding set_state_script guard_of
set_state-Ordered held logout u below =
    (below, (inl (refl, tt), (inl (refl, tt), when-Ordered _ logout _ (tt, tt))), tt)

count-Ordered : Ordered [] count_script
unfolding count_script guard_of
count-Ordered = (tt, (inl (refl, tt), tt), tt)

module _ (methods : Methods) (d : Disciplined methods) where
  set-Ordered : (f : RoomField) (r : ℕ) → Ordered in_rooms (set_field_script f r)
  set-Ordered = set_field-Ordered in_rooms in_rooms-Below

  get-Ordered : (f : RoomField) (r : ℕ) → Ordered in_rooms (get_field_script f r)
  get-Ordered = get_field-Ordered in_rooms in_rooms-Below

  add-Ordered : (r u : ℕ) → Ordered in_rooms (add_usr_script methods r u)
  add-Ordered = add_usr-Ordered in_rooms in_rooms-Below methods d

  set_both-Ordered : (r : ℕ) → Ordered in_rooms (set_both_script r)
  unfolding set_both_script
  set_both-Ordered r =
      then-Ordered in_rooms (set_field_script RoomField.game_mode r)
        (set_field_script RoomField.server_id r) (set-Ordered RoomField.game_mode r)
        (set-Ordered RoomField.server_id r)

  join_listed-Ordered :
      (no_mode no_server : Bool) (r u : ℕ)
      → Ordered in_rooms (join_listed_script methods no_mode no_server r u)
  unfolding join_listed_script
  join_listed-Ordered no_mode no_server r u =
      let set_both = set_both_script r in
      let get_mode = get_field_script RoomField.game_mode r in
      let get_server = get_field_script RoomField.server_id r in
      let server = get_server then when no_server set_both in
      let server-Ordered =
        then-Ordered in_rooms get_server (when no_server set_both)
          (get-Ordered RoomField.server_id r)
          (when-Ordered in_rooms no_server set_both (set_both-Ordered r)) in
      let rest-Ordered =
        if-Ordered in_rooms no_mode set_both server (set_both-Ordered r) server-Ordered in
      then-Ordered in_rooms (add_usr_script methods r u)
        (get_mode then (if no_mode then set_both else server)) (add-Ordered r u)
        (then-Ordered in_rooms get_mode (if no_mode then set_both else server)
          (get-Ordered RoomField.game_mode r) rest-Ordered)

  join_new-Ordered : (r u : ℕ) → Ordered in_rooms (join_new_script methods r u)
  unfolding join_new_script guard_of
  join_new-Ordered r u =
      let set_id = set_field_script RoomField.id r in
      let set_mode = set_field_script RoomField.game_mode r in
      let insert = writes Location.all_rooms in
      let insert-Ordered : Ordered in_rooms insert = (inl (refl, tt), tt) in
      then-Ordered in_rooms (add_usr_script methods r u) (set_id then (set_mode then insert))
        (add-Ordered r u)
        (then-Ordered in_rooms set_id (set_mode then insert) (set-Ordered RoomField.id r) (
          then-Ordered in_rooms set_mode insert (set-Ordered RoomField.game_mode r) insert-Ordered))

  user_join_room-Ordered :
      (no_id found no_mode no_server : Bool) (r u : ℕ)
      → Ordered [] (user_join_room_script methods no_id found no_mode no_server r u)
  unfolding user_join_room_script guard_of
  user_join_room-Ordered no_id found no_mode no_server r u =
      let join =
        if-Ordered in_rooms found (join_listed_script methods no_mode no_server r u)
          (join_new_script methods r u) (join_listed-Ordered no_mode no_server r u)
          (join_new-Ordered r u) in
      when-Ordered [] (not no_id) _ (tt, (inl (refl, tt), join), tt)

  visits-Ordered :
      (rooms : List (ℕ × Bool × Bool × List ℕ))
      → Ordered in_rooms (one_by_one (map (visit_script methods) rooms))
  visits-Ordered [] = tt
  visits-Ordered (v ∷ rooms) =
      then-Ordered in_rooms (visit_script methods v) _
        (visit-Ordered in_rooms in_rooms-Below methods d v) (visits-Ordered rooms)

  get_mm_rooms-Ordered :
      (rooms : List (ℕ × Bool × Bool × List ℕ)) → Ordered [] (get_mm_rooms_script methods rooms)
  unfolding get_mm_rooms_script guard_of
  get_mm_rooms-Ordered rooms = (tt, (inl (refl, tt), visits-Ordered rooms), tt)

  put_out-Ordered : (side : Side) (u : ℕ) → Ordered (in_users side) (put_out_script methods u)
  unfolding put_out_script
  put_out-Ordered side u =
      let below = in_users-Below side in
      then-Ordered (in_users side) (methods.join_null_room u) _
        (d.join_null_room u (in_users side) below) (d.close u (in_users side) below)

  replace-Ordered : (old : Option ℕ) → Ordered (in_users exclusive) (replace_script methods old)
  unfolding replace_script
  replace-Ordered none = tt
  replace-Ordered (some old) =
      then-Ordered (in_users exclusive) (put_out_script methods old) _
        (put_out-Ordered exclusive old)
        (set_state-Ordered (in_users exclusive) false old (omega arith, tt))

  add_user-Ordered :
      (has_room : Bool) (old : Option ℕ) → Ordered [] (add_user_script methods has_room old)
  unfolding add_user_script guard_of
  add_user-Ordered has_room old =
      then-Ordered [] count_script _ count-Ordered
        (when-Ordered [] has_room _ (tt, (inl (refl, tt), replace-Ordered old), tt))

  create_user-Ordered :
      (has_room memory still : Bool) (u : ℕ) (old : Option ℕ)
      → Ordered [] (create_user_script methods has_room memory still u old)
  unfolding create_user_script
  create_user-Ordered has_room memory still u old =
      let added =
        then-Ordered [] (methods.set_session_ex u) _ (d.set_session_ex u)
          (add_user-Ordered still old) in
      then-Ordered [] count_script _ count-Ordered
        (when-Ordered [] has_room _ (when-Ordered [] memory _ added))

  remove_user-Ordered : (there : Bool) (u : ℕ) → Ordered [] (remove_user_script methods there u)
  unfolding remove_user_script guard_of
  remove_user-Ordered there u =
      let erased : Ordered (in_users exclusive) (writes Location.all_users) =
        (inl (refl, tt), tt) in
      let gone =
        then-Ordered (in_users exclusive) (put_out_script methods u) _ (put_out-Ordered exclusive u)
          erased in
      (tt, (inl (refl, tt), when-Ordered (in_users exclusive) there _ gone), tt)

  -- Every method, called with no lock held, nests its mutexes in the order and has the guard of what it touches.
  script-Ordered : (op : Operation) → Ordered [] (script methods op)
  unfolding set_session_script reset_script get_state_script get_user_id_array_script
      send_server_packet_script send_global_packet_script remove_room_script get_room_by_id_script
      guard_of
  script-Ordered (Operation.set_field f r) = set_field-Ordered [] tt f r
  script-Ordered (Operation.get_field f r) = get_field-Ordered [] tt f r
  script-Ordered (Operation.send_packet v r us) = send_packet-Ordered [] tt v r us
  script-Ordered (Operation.set_status b v r us) = set_status-Ordered [] tt b v r us
  script-Ordered (Operation.get_users r) = get_users-Ordered [] tt r
  script-Ordered (Operation.look_up r) = look_up-Ordered [] tt r
  script-Ordered (Operation.get_mm_time r) = get_mm_time-Ordered [] tt r
  script-Ordered (Operation.start_mm b r) = start_mm-Ordered [] tt b r
  script-Ordered (Operation.stop_mm b r) = stop_mm-Ordered [] tt b r
  script-Ordered (Operation.for_each_user r us) = for_each_user-Ordered [] tt methods d r us
  script-Ordered (Operation.get_criteria r us) = get_criteria-Ordered [] tt methods d r us
  script-Ordered (Operation.get_mm_point r us) = get_mm_point-Ordered [] tt methods d r us
  script-Ordered (Operation.add_usr r u) = add_usr-Ordered [] tt methods d r u
  script-Ordered (Operation.remove_usr a b r u us) = remove_usr-Ordered [] tt methods d a b r u us
  script-Ordered (Operation.user_join_room a b c e r u) = user_join_room-Ordered a b c e r u
  script-Ordered (Operation.get_mm_rooms rooms) = get_mm_rooms-Ordered rooms
  script-Ordered Operation.remove_room = (tt, (inl (refl, tt), tt), tt)
  script-Ordered Operation.get_room_by_id = (tt, (inl (refl, tt), tt), tt)
  script-Ordered (Operation.set_state b u) = set_state-Ordered [] b u tt
  script-Ordered (Operation.get_state u) = (tt, (inl (refl, tt), tt), tt)
  script-Ordered (Operation.reset u) = (tt, (inl (refl, tt), tt), tt)
  script-Ordered (Operation.set_session u) = (tt, (tt, tt), tt)
  script-Ordered Operation.count = count-Ordered
  script-Ordered Operation.get_user_id_array = (tt, (inl (refl, tt), tt), tt)
  script-Ordered (Operation.send_server_packet v us) =
      when-Ordered [] v _ (tt, (inl (refl, tt), tell-Ordered (in_users shared) us), tt)
  script-Ordered (Operation.send_global_packet v us) = (
    tt,
    when-Ordered (in_users shared) v _ (inl (refl, tt), tell-Ordered (in_users shared) us),
    tt,
  )
  script-Ordered (Operation.add_user b old) = add_user-Ordered b old
  script-Ordered (Operation.create_user a b c u old) = create_user-Ordered a b c u old
  script-Ordered (Operation.remove_user b u) = remove_user-Ordered b u

  scripts-Ordered : (ops : List Operation) → Ordered [] (one_by_one (map (script methods) ops))
  scripts-Ordered [] = tt
  scripts-Ordered (op ∷ ops) =
      then-Ordered [] (script methods op) _ (script-Ordered op) (scripts-Ordered ops)

  pub thread-Follows : (ops : List Operation) → Follows [] (thread methods ops).rest
  thread-Follows ops =
      Ordered-Follows [] (one_by_one (map (script methods) ops)) [] (scripts-Ordered ops) refl
