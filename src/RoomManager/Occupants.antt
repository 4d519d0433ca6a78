-- ===== src/RoomManager/Occupants.antt =====
-- Who is in which room after `UserJoinRoom`.
use model_lib.Common.{
  ℕ, ◌<◌, ◌≡◌, ◌≢◌, refl, sym, ap, ◌∙◌, Bool, Option, none, some, List, [], ◌∷◌, ◌++◌, arith, ==_ne,
}
use model_lib.Common.Assoc
use model_lib.Room.{Room, Effect, minus_one, set_room, add_usr}
use model_lib.RoomManager.{RoomManager, update, join_found, user_join_room, get_room_by_id}
use model_lib.RoomManager.Joining.{
  IsValid, join_listed-fields, join_new-fields, update_self, update_ne, members, occupants,
}

-- An object that another id does not lead to can change without the occupants there.
members_kept :
    (f : ℕ → Room) (a : ℕ) (r : Room) (found : Option ℕ)
    → found ≢ some a
    → members (update f a r) found ≡ members f found
members_kept f a r none ne = refl
members_kept f a r (some b) ne =
    ap (λ (s : Room). s.users) (update_ne f a b r (λ q. ne (ap some (sym q))))

module _ (server_of : ℕ → ℕ) (before : ℕ → ℕ → Bool) where
  -- What a join does to the occupants of the rooms.
  abbrev Joined : ℕ → ℕ → RoomManager → RoomManager × List Effect → Type 0
  Joined p room_id m (m', effects) =
      (occupants room_id m' ≡ occupants room_id m ++ p ∷ [])
      × ((j : ℕ) → room_id ≢ j → occupants j m' ≡ occupants j m)
      × (effects ≡ set_room p ∷ [])

  join_found-Joined :
      (found : Option ℕ) (memory p room_id mode : ℕ) (m : RoomManager)
      → get_room_by_id room_id m ≡ found
      → IsValid m
      → Joined p room_id m (join_found server_of before found memory p room_id mode m)
  unfolding join_found get_room_by_id add_usr
  join_found-Joined (some a) memory p room_id mode m e v = (
    rw e (
        ap (λ (s : Room). s.users) (update_self m.store a _)
        ∙ (join_listed-fields server_of before p mode (m.store a)).0),
    λ j ne.
        members_kept m.store a _ (Assoc.lookup m.rooms j)
          (λ q. ne (sym (v.own_id room_id a e).0 ∙ (v.own_id j a q).0)),
    refl,
  )
  join_found-Joined none memory p room_id mode m e v = (
    rw (e, Assoc.lookup-place_self before m.rooms room_id m.next e)
        (ap (λ (s : Room). s.users) (update_self m.store m.next _)
          ∙ (join_new-fields server_of before memory p room_id mode).0),
    λ j ne. rw (Assoc.lookup-place_ne before m.rooms room_id j m.next ne) (
        members_kept m.store m.next _ (Assoc.lookup m.rooms j) (λ q.
          absurd
            (omega (arith, Assoc.All-lookup (λ (b : ℕ). b < m.next) m.rooms j m.next v.made q)))),
    refl,
  )

  -- `UserJoinRoom` puts the user behind those in the room of the id, which it makes if it has to; nobody in
  -- another room is touched, and the user is told its room. For the id -1 it does nothing.
  pub user_join_room-joins :
      (memory p room_id mode : ℕ) (m : RoomManager)
      → IsValid m
      → let (m', effects) = user_join_room server_of before memory p room_id mode m in
        (room_id ≢ minus_one
          → (occupants room_id m' ≡ occupants room_id m ++ p ∷ [])
            × ((j : ℕ) → room_id ≢ j → occupants j m' ≡ occupants j m)
            × (effects ≡ set_room p ∷ []))
        × (room_id ≡ minus_one → (m' ≡ m) × (effects ≡ []))
  unfolding user_join_room get_room_by_id
  user_join_room-joins memory p room_id mode m v = (
    λ ne.
        rw (==_ne room_id minus_one ne)
          (join_found-Joined (get_room_by_id room_id m) memory p room_id mode m refl v),
    λ e. rw e (refl, refl),
  )
