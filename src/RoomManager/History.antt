-- ===== src/RoomManager/History.antt =====
-- Histories of a `VChatRoomManager` and of its rooms, one call after another.
use model_lib.Common.{
  ℕ, suc, ◌<◌, ◌%◌, ◌^◌, ◌≡◌, ◌≢◌, refl, sym, ap, ◌∙◌, inl, inr, Bool, Option, none, some, List, [],
  ◌∷◌, arith, ◌==◌, ==_ne, Bool-cases,
}
use mathlib.Core.Option.{some_inj}
use native.Mathlib.Decide.{ℕ_discrete}
use model_lib.Common.Assoc
use model_lib.Room.{
  Room, minus_one, no_mode, room_normal, remove_usr, start_mm, stop_mm, set_status, erase, find,
  is_empty, without,
}
use model_lib.RoomManager.{
  RoomManager, update, join_listed, join_new, join_found, user_join_room, remove_room,
  get_room_by_id,
}
use model_lib.RoomManager.Joining.{
  IsTidy, IsValid, append_not_nil, join_listed-fields, join_new-fields, update-All, update-IsValid,
}

module _ (server_of : ℕ → ℕ) (before : ℕ → ℕ → Bool) where
  join_found-IsValid :
      (found : Option ℕ) (status p room_id mode : ℕ) (m : RoomManager)
      → get_room_by_id room_id m ≡ found
      → room_id ≢ minus_one
      → IsValid m
      → IsValid (join_found server_of before found status p room_id mode m).0
  unfolding join_found get_room_by_id
  join_found-IsValid (some a) status p room_id mode m e ne v =
      update-IsValid m a (join_listed server_of before p mode (m.store a)).0 v
        (join_listed-fields server_of before p mode (m.store a)).3
        (λ made. record {
          cleared = λ h. absurd (
              append_not_nil (m.store a).users p
                (sym (join_listed-fields server_of before p mode (m.store a)).0 ∙ h));
        })
  join_found-IsValid none status p room_id mode m e ne v = record {
    distinct = Assoc.Distinct-place before m.rooms room_id m.next e v.distinct;
    made =
        Assoc.All-place (λ (a : ℕ). a < suc m.next) before m.rooms room_id m.next
          (Assoc.All-below_suc m.next m.rooms v.made) (omega arith);
    own_id = λ id a h. elim (ℕ_discrete room_id id) [
      | yes same ↦
          let a_next : m.next ≡ a = some_inj.0 (
            sym (Assoc.lookup-place_self before m.rooms room_id m.next e)
            ∙ ap (Assoc.lookup (Assoc.place before room_id m.next m.rooms)) same
            ∙ h) in
          (
            update-All (λ (b : ℕ) (r : Room). r.id ≡ id) m.store m.next fresh a (λ q. new.3 ∙ same)
                (λ q. absurd (q a_next)),
            λ q. ne (same ∙ q),
          )
      | no other ↦
          let h' : get_room_by_id id m ≡ some a =
            sym (Assoc.lookup-place_ne before m.rooms room_id id m.next other) ∙ h in
          (
            update-All (λ (b : ℕ) (r : Room). r.id ≡ id) m.store m.next fresh a
                (λ q. absurd (
                  omega
                    (arith, q, Assoc.All-lookup (λ (b : ℕ). b < m.next) m.rooms id a v.made h')))
                (λ q. (v.own_id id a h').0),
            (v.own_id id a h').1,
          )
    ];
    tidy = λ a lt.
        update-All (λ (b : ℕ) (r : Room). IsTidy r) m.store m.next fresh a
          (λ q. record { cleared = λ h. absurd (cc (sym new.0 ∙ h)) })
          (λ q. v.tidy a (omega (arith, lt, q)));
  }
    where
      fresh : Room
      fresh = (join_new server_of before status p room_id mode).0

      new :
          (fresh.users ≡ p ∷ [])
          × (fresh.status ≡ room_normal)
          × (fresh.server_id ≡ server_of p)
          × (fresh.id ≡ room_id)
          × (fresh.game_mode ≡ mode % 2 ^ 8)
      new = join_new-fields server_of before status p room_id mode

without-IsTidy :
    (users : List ℕ) (r : Room)
    → ((without users r).users ≡ users)
      × ((without users r).id ≡ r.id)
      × (users ≡ []
          → ((without users r).server_id ≡ minus_one) × ((without users r).game_mode ≡ no_mode))
unfolding without is_empty
without-IsTidy [] r = (refl, refl, λ h. (refl, refl))
without-IsTidy (p ∷ ps) r = (refl, refl, λ h. absurd (cc h))

remove_usr-IsTidy :
    (p : ℕ) (r : Room) → (IsTidy r → IsTidy (remove_usr p r).0) × ((remove_usr p r).0.id ≡ r.id)
unfolding remove_usr
remove_usr-IsTidy p r = elim (Bool-cases (find p r.users)) [
  | inr away ↦ rw away (λ t. t, refl)
  | inl there ↦
      let w = without-IsTidy (erase p r.users) r in
      rw there (λ t. record { cleared = λ h. w.2 (sym w.0 ∙ h) }, w.1)
]

start_mm-IsTidy :
    (now : ℕ) (r : Room) → (IsTidy r → IsTidy (start_mm now r).0) × ((start_mm now r).0.id ≡ r.id)
unfolding start_mm
start_mm-IsTidy now r = elim (Bool-cases (r.status == 1)) [
  | inl h ↦ rw h (λ t. t, refl)
  | inr h ↦ rw h (λ t. record { cleared = t.cleared }, refl)
]

stop_mm-IsTidy : (r : Room) → (IsTidy r → IsTidy (stop_mm r).0) × ((stop_mm r).0.id ≡ r.id)
unfolding stop_mm
stop_mm-IsTidy r = elim (Bool-cases (r.status == 1)) [
  | inl h ↦ rw h (λ t. record { cleared = t.cleared }, refl)
  | inr h ↦ rw h (λ t. t, refl)
]

remove_room-IsValid : (id : ℕ) (m : RoomManager) → IsValid m → IsValid (remove_room id m)
unfolding remove_room get_room_by_id
remove_room-IsValid id m v = record {
  distinct = Assoc.Distinct-erase m.rooms id v.distinct;
  made = Assoc.All-erase (λ (a : ℕ). a < m.next) m.rooms id v.made;
  own_id = λ j a h. elim (ℕ_discrete id j) [
    | yes same ↦ absurd (
        cc (
          sym (Assoc.lookup-erase_self m.rooms id v.distinct)
          ∙ ap (Assoc.lookup (Assoc.erase id m.rooms)) same
          ∙ h))
    | no other ↦ v.own_id j a (sym (Assoc.lookup-erase_ne m.rooms id j other) ∙ h)
  ];
  tidy = v.tidy;
}

-- What is called: on the manager, or on the room at an address.
pub data Call : Type 0 where
  join : ℕ → ℕ → ℕ → ℕ → Call
  remove : ℕ → Call
  leave : ℕ → ℕ → Call
  start : ℕ → ℕ → Call
  stop : ℕ → Call
  status : ℕ → ℕ → Call

module _ (server_of : ℕ → ℕ) (before : ℕ → ℕ → Bool) where
  abbrev pub call : Call → RoomManager → RoomManager
  call (join memory p room_id mode) m = (user_join_room server_of before memory p room_id mode m).0
  call (remove id) m = remove_room id m
  call (leave a p) m = record m { store = update m.store a (remove_usr p (m.store a)).0 }
  call (start a now) m = record m { store = update m.store a (start_mm now (m.store a)).0 }
  call (stop a) m = record m { store = update m.store a (stop_mm (m.store a)).0 }
  call (status a value) m = record m { store = update m.store a (set_status value (m.store a)).0 }

  abbrev pub room_calls : List Call → RoomManager → RoomManager
  room_calls [] m = m
  room_calls (c ∷ cs) m = room_calls cs (call c m)

  user_join_room-IsValid :
      (memory p room_id mode : ℕ) (m : RoomManager)
      → IsValid m
      → IsValid (user_join_room server_of before memory p room_id mode m).0
  unfolding user_join_room get_room_by_id
  user_join_room-IsValid memory p room_id mode m v = elim (ℕ_discrete room_id minus_one) [
    | yes same ↦ rw same v
    | no other ↦ rw (==_ne room_id minus_one other) (
        join_found-IsValid server_of before (get_room_by_id room_id m) memory p room_id mode m refl
          other v)
  ]

  call-IsValid : (c : Call) (m : RoomManager) → IsValid m → IsValid (call c m)
  unfolding set_status
  call-IsValid (join memory p room_id mode) m v = user_join_room-IsValid memory p room_id mode m v
  call-IsValid (remove id) m v = remove_room-IsValid id m v
  call-IsValid (leave a p) m v =
      let (tidy, id) = remove_usr-IsTidy p (m.store a) in
      update-IsValid m a _ v id (λ lt. tidy (v.tidy a lt))
  call-IsValid (start a now) m v =
      let (tidy, id) = start_mm-IsTidy now (m.store a) in
      update-IsValid m a _ v id (λ lt. tidy (v.tidy a lt))
  call-IsValid (stop a) m v =
      let (tidy, id) = stop_mm-IsTidy (m.store a) in
      update-IsValid m a _ v id (λ lt. tidy (v.tidy a lt))
  call-IsValid (status a value) m v =
      update-IsValid m a _ v refl (λ lt. record { cleared = (v.tidy a lt).cleared })

  -- Over any joins, departures and match-making calls on a manager of which this holds: each room is
  -- listed once and under its own id, never under -1, and a room that nobody is in has neither server
  -- nor mode.
  pub room_calls-IsValid :
      (cs : List Call) (m : RoomManager) → IsValid m → IsValid (room_calls cs m)
  room_calls-IsValid [] m v = v
  room_calls-IsValid (c ∷ cs) m v = room_calls-IsValid cs (call c m) (call-IsValid c m v)
