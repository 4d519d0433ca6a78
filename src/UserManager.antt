-- ===== src/UserManager.antt =====
-- src/VChatLib/VUserManager.h, VUserManager.cpp: `VUserManager`, the users by their player id. A user is named
-- by the address of its object; the objects are the store. `VSafeMap` is a `std::map`: a map whose
-- order of keys is a parameter. Each method here runs alone; UserManager/Race.antt interleaves `CreateUser`.
pub mod Registry
pub mod History
pub mod Race
use model_lib.Common.{
  ℕ, suc, Bool, true, false, Option, none, some, List, [], ◌∷◌, ◌==◌, ltb, if◌then◌else◌, length,
  map, keep,
}
use model_lib.Common.Int.{ℤ}
use model_lib.Common.Assoc.{lookup, replace, erase, place}
use model_lib.Common.Page.{page, starts_below, upper}
use model_lib.ChatUser.{ChatUser, Methods}

-- `m_pUsers`, the objects, and the next address that the allocator gives.
pub record UserManager : Type 0 where
  pub users : List (ℕ × ℕ)
  pub store : ℕ → ChatUser
  pub next : ℕ

abbrev pub update : (ℕ → ChatUser) → ℕ → ChatUser → ℕ → ChatUser
update f p v q = if p == q then v else f q

unfoldable pub get_user_count : UserManager → ℕ
get_user_count r = length r.users

unfoldable pub get_user : ℕ → UserManager → Option ℕ
get_user id r = lookup r.users id

unfoldable pub can_create_user : ℕ → UserManager → Bool
unfolding get_user_count
can_create_user max_player r = ltb (get_user_count r) max_player

unfoldable pub is_empty : UserManager → Bool
unfolding get_user_count
is_empty r = get_user_count r == 0

module _ (methods : Methods) where
  -- `UserAllocator::Create()` and the setters after it.
  unfoldable pub new_user : ℕ → Option ℕ → List ℕ → ChatUser
  new_user id session name =
      methods.set_player_id id
        (methods.set_user_name name (methods.set_session_ex session methods.created))

  -- `RemoveUser`, by what `find` finds at the id of the user now.
  unfoldable pub remove_found : Option ℕ → ℕ → UserManager → UserManager × Bool
  remove_found none p r = (r, false)
  remove_found (some q) p r =
      let closed = methods.close (methods.join_null_room (r.store p)) in
      let removed = record r {
        users = erase (r.store p).player_id r.users;
        store = update r.store p closed;
      } in
      if q == p then (removed, true) else (r, false)

  unfoldable pub remove_user : ℕ → UserManager → UserManager × Bool
  unfolding remove_found
  remove_user p r = remove_found (lookup r.users (r.store p).player_id) p r

module _ (methods : Methods) (before : ℕ → ℕ → Bool) where
  -- What `AddUser` does under the lock, by what `insert` finds at the id: a user that is there is put out.
  unfoldable pub insert_found : Option ℕ → ℕ → UserManager → UserManager
  insert_found none p r = record r { users = place before (r.store p).player_id p r.users }
  insert_found (some old) p r =
      let kicked = methods.set_kicked (methods.close (methods.join_null_room (r.store old))) in
      record r {
        users = replace (r.store p).player_id p r.users;
        store = update r.store old kicked;
      }

  unfoldable pub insert_user : ℕ → UserManager → UserManager
  unfolding insert_found
  insert_user p r = insert_found (lookup r.users (r.store p).player_id) p r

  unfoldable pub add_user : ℕ → ℕ → UserManager → UserManager × Bool
  unfolding insert_user get_user_count
  add_user max_player p r =
      if ltb (get_user_count r) max_player then (insert_user p r, true) else (r, false)

  -- `memory`: the allocator has an object left. The answer of `AddUser` is not looked at.
  unfoldable pub create_user :
      ℕ → Bool → ℕ → Option ℕ → List ℕ → UserManager → UserManager × Option ℕ
  unfolding add_user new_user get_user_count
  create_user max_player memory id session name r =
      let p = r.next in
      let r' = record r {
        store = update r.store p (new_user methods id session name);
        next = suc p;
      } in
      if ltb (get_user_count r) max_player
      then (if memory then ((add_user max_player p r').0, some p) else (r, none))
      else (r, none)

-- The users that `SendServerPacket` and `SendGlobalPacket` hand a valid buffer to, in order.
unfoldable pub send_server_packet : ℕ → UserManager → List ℕ
send_server_packet server r =
    keep (λ p. (r.store p).server_id == server) (map (λ (e : ℕ × ℕ). e.1) r.users)

unfoldable pub send_global_packet : UserManager → List ℕ
send_global_packet r = map (λ (e : ℕ × ℕ). e.1) r.users

-- `GetUserIDArray(nServerID, nFrom, nTo)`
unfoldable pub get_user_id_array : ℕ → ℤ → ℤ → UserManager → List ℕ
get_user_id_array server from to r =
    let to' = upper to (length r.users) in
    let on_server : ℕ × ℕ → Bool = λ e. (r.store e.1).server_id == server in
    let id_of : ℕ × ℕ → ℕ = λ e. (r.store e.1).player_id in
    if starts_below from to' then page on_server id_of from to' 0 r.users else []
