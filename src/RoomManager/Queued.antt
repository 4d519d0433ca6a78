-- ===== src/RoomManager/Queued.antt =====
-- The rooms that the match-making finds.
use model_lib.Common.{
  ℕ, ◌≡◌, refl, ap, Bool, true, false, not, ◌&&◌, none, some, List, [], ◌∷◌, ◌==◌, if◌then◌else◌,
  map, keep, inl, inr, Bool-cases, List-cases,
}
use model_lib.Room.{
  Room, MmCriteria, room_enqueue_mm, is_empty, sign_extend, get_criteria, is_match_making_mode,
}
use model_lib.Room.Criteria.{reported, get_criteria-totals}
use model_lib.RoomManager.{RoomManager, get_mm_rooms_from, get_mm_rooms}

-- A room of a match-making mode that is queued and has users.
abbrev pub is_offered : (ℕ → Bool) → (ℕ → Room) → ℕ × ℕ → Bool
is_offered is_mode store e =
    let r = store e.1 in
    is_mode (sign_extend r.game_mode) && r.status == room_enqueue_mm && not (is_empty r.users)

abbrev pub offer : (ℕ → ℕ) → (ℕ → Room) → ℕ × ℕ → MmCriteria × ℕ
offer points store e = (reported points (store e.1), e.1)

criteria_of :
    (points : ℕ → ℕ) (r : Room)
    → get_criteria points r ≡ (if is_empty r.users then none else some (reported points r))
unfolding is_empty
criteria_of points r = elim (get_criteria-totals points r) [
  | inl (e, found, _) ↦ let empty : is_empty r.users ≡ true = rw e refl in rw (found, empty) refl
  | inr (ne, found, _) ↦ elim (List-cases r.users) [
    | inl e ↦ absurd (ne e)
    | inr (p, ps, e) ↦
        let some_user : is_empty r.users ≡ false = rw e refl in rw (found, some_user) refl
  ]
]

get_mm_rooms_from-offers :
    (is_mode : ℕ → Bool) (points : ℕ → ℕ) (store : ℕ → Room) (es : List (ℕ × ℕ))
    → get_mm_rooms_from is_mode points store es
      ≡ map (offer points store) (keep (is_offered is_mode store) es)
unfolding get_mm_rooms_from
get_mm_rooms_from-offers is_mode points store [] = refl
get_mm_rooms_from-offers is_mode points store (e ∷ es) =
    let ih = get_mm_rooms_from-offers is_mode points store es in
    let r = store e.1 in
    elim (Bool-cases (is_mode (sign_extend r.game_mode) && r.status == room_enqueue_mm)) [
      | inr other ↦ rw other ih
      | inl queued ↦
          rw (queued, criteria_of points r)
            (elim (Bool-cases (is_empty r.users)) [
              | inl empty ↦ rw empty ih
              | inr users ↦ rw users (ap (◌∷◌ (offer points store e)) ih)
            ])
    ]

-- `GetMMRooms` lists each room that is of a match-making mode, queued and not empty, in the order of the map and with
-- its own criteria: the server, the mode, the number of users and the sum of their points; and no other.
get_mm_rooms-offers :
    (deathmatch base_protection : ℕ) (points : ℕ → ℕ) (m : RoomManager)
    → get_mm_rooms deathmatch base_protection points m
      ≡ map
          (offer points m.store)
          (keep (is_offered (is_match_making_mode deathmatch base_protection) m.store) m.rooms)
unfolding get_mm_rooms
get_mm_rooms-offers deathmatch base_protection points m =
    get_mm_rooms_from-offers (is_match_making_mode deathmatch base_protection) points m.store
      m.rooms
