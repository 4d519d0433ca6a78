-- ===== src/RoomManager.antt =====
-- src/VChatLib/VChatRoomManager.h: `VChatRoomManager`, the rooms by their id. A room is named by the address of
-- its object and the objects are the store, since users keep references to them. The order in which the
-- hash map iterates is a parameter. Each method runs under the lock of the manager.
pub mod Joining
pub mod History
pub mod Occupants
pub mod Queued
use model_lib.Common.{
  ℕ, suc, Bool, true, false, Option, none, some, List, [], ◌∷◌, ◌==◌, ◌||◌, ◌&&◌, if◌then◌else◌,
}
use model_lib.Common.Assoc.{lookup, erase, place}
use model_lib.Room.{
  Room, Effect, MmCriteria, minus_one, no_mode, room_enqueue_mm, new_room, set_id, set_game_mode,
  set_server_id, add_usr, get_criteria, is_match_making_mode, sign_extend,
}

pub record RoomManager : Type 0 where
  pub rooms : List (ℕ × ℕ)
  pub store : ℕ → Room
  pub next : ℕ

abbrev pub update : (ℕ → Room) → ℕ → Room → ℕ → Room
update f a r b = if a == b then r else f b

module _ (server_of : ℕ → ℕ) (before : ℕ → ℕ → Bool) where
  -- A user enters a room that is listed; a room without a mode or a server takes both from this user.
  unfoldable pub join_listed : ℕ → ℕ → Room → Room × List Effect
  join_listed p mode r =
      let (r', effects) = add_usr server_of p r in
      (
        if r'.game_mode == no_mode || r'.server_id == minus_one
            then set_server_id (server_of p) (set_game_mode mode r')
            else r',
        effects,
      )

  -- A new room; `status` is what its memory held.
  unfoldable pub join_new : ℕ → ℕ → ℕ → ℕ → Room × List Effect
  join_new status p room_id mode =
      let (r, effects) = add_usr server_of p (new_room status) in
      (set_game_mode mode (set_id room_id r), effects)

  unfoldable pub join_found : Option ℕ → ℕ → ℕ → ℕ → ℕ → RoomManager → RoomManager × List Effect
  unfolding join_listed join_new
  join_found (some a) status p room_id mode m =
      let (r, effects) = join_listed p mode (m.store a) in
      (record m { store = update m.store a r }, effects)
  join_found none status p room_id mode m =
      let (r, effects) = join_new status p room_id mode in
      (
        record {
          rooms = place before room_id m.next m.rooms;
          store = update m.store m.next r;
          next = suc m.next;
        },
        effects,
      )

  -- `UserJoinRoom(usr, nChatRoomId, nRoomMode)`
  unfoldable pub user_join_room : ℕ → ℕ → ℕ → ℕ → RoomManager → RoomManager × List Effect
  unfolding join_found
  user_join_room status p room_id mode m =
      if room_id == minus_one
      then (m, [])
      else join_found (lookup m.rooms room_id) status p room_id mode m

unfoldable pub remove_room : ℕ → RoomManager → RoomManager
remove_room id m = record m { rooms = erase id m.rooms }

unfoldable pub get_room_by_id : ℕ → RoomManager → Option ℕ
get_room_by_id id m = lookup m.rooms id

-- `GetMMRooms`: the criteria and the rooms that it appends to the list. `is_mode` is `IsMatchMakingMode`.
unfoldable pub get_mm_rooms_from :
    (ℕ → Bool) → (ℕ → ℕ) → (ℕ → Room) → List (ℕ × ℕ) → List (MmCriteria × ℕ)
unfolding sign_extend
get_mm_rooms_from is_mode points store [] = []
get_mm_rooms_from is_mode points store (e ∷ es) =
    let r = store e.1 in
    let rest = get_mm_rooms_from is_mode points store es in
    if is_mode (sign_extend r.game_mode) && r.status == room_enqueue_mm
    then elim (get_criteria points r) [ none ↦ rest | some c ↦ (c, e.1) ∷ rest ]
    else rest

unfoldable pub get_mm_rooms : ℕ → ℕ → (ℕ → ℕ) → RoomManager → List (MmCriteria × ℕ)
unfolding get_mm_rooms_from is_match_making_mode
get_mm_rooms deathmatch base_protection points m =
    get_mm_rooms_from (is_match_making_mode deathmatch base_protection) points m.store m.rooms
