-- ===== src/RoomManager/Joining.antt =====
-- Which room a user ends up in, and what stays true of the rooms over any history.
use model_lib.Common.{
  ℕ, ◌<◌, ◌%◌, ◌^◌, ◌≡◌, ◌≢◌, refl, sym, ap, ◌∙◌, Bool, Option, none, some, List, [], ◌∷◌, ◌++◌,
  All, arith, if◌then◌else◌, ◌==◌,
}
use mathlib.Core.Path.{subst}
use native.Mathlib.Decide.{ℕ_discrete}
use model_lib.Common.Assoc
use model_lib.Room.{
  Room, minus_one, no_mode, room_normal, set_id, set_game_mode, set_server_id, add_usr, new_room,
}
use model_lib.RoomManager.{RoomManager, update, join_listed, join_new, get_room_by_id}

-- A room that nobody is in has neither server nor mode, so the next user sets them.
pub record IsTidy (r : Room) : Type 0 where
  pub cleared : r.users ≡ [] → (r.server_id ≡ minus_one) × (r.game_mode ≡ no_mode)

-- Ids stand once, every room is listed under its own id, which is not -1, and is one that was made.
pub record IsValid (m : RoomManager) : Type 0 where
  pub distinct : Assoc.Distinct m.rooms
  pub made : All (λ (e : ℕ × ℕ). e.1 < m.next) m.rooms
  pub own_id : (id a : ℕ) → get_room_by_id id m ≡ some a → ((m.store a).id ≡ id) × (id ≢ minus_one)
  pub tidy : (a : ℕ) → a < m.next → IsTidy (m.store a)

pub append_not_nil : (ps : List ℕ) (p : ℕ) → ps ++ p ∷ [] ≢ []
append_not_nil [] p h = cc h
append_not_nil (q ∷ ps) p h = cc h

module _ (server_of : ℕ → ℕ) (before : ℕ → ℕ → Bool) where
  -- What a join leaves of a room that was there.
  pub join_listed-fields :
      (p mode : ℕ) (r : Room)
      → let r' = (join_listed server_of before p mode r).0 in
        (r'.users ≡ r.users ++ p ∷ [])
        × (r'.status ≡ room_normal)
        × (r'.server_id ≡ server_of p)
        × (r'.id ≡ r.id)
        × (r'.game_mode ≡ (
            if r.game_mode == no_mode
            then mode % 2 ^ 8
            else (if server_of p == minus_one then mode % 2 ^ 8 else r.game_mode)))
  unfolding join_listed add_usr set_game_mode set_server_id
  join_listed-fields p mode r =
      (ground arith, ground arith, ground arith, ground arith, ground arith)

  -- A new room belongs to the first user.
  pub join_new-fields :
      (status p room_id mode : ℕ)
      → let r = (join_new server_of before status p room_id mode).0 in
        (r.users ≡ p ∷ [])
        × (r.status ≡ room_normal)
        × (r.server_id ≡ server_of p)
        × (r.id ≡ room_id)
        × (r.game_mode ≡ mode % 2 ^ 8)
  unfolding join_new add_usr new_room set_game_mode set_id
  join_new-fields status p room_id mode = (refl, refl, refl, refl, refl)

pub update_self : (f : ℕ → Room) (a : ℕ) (r : Room) → update f a r a ≡ r
update_self f a r = ground arith

pub update_ne : (f : ℕ → Room) (a b : ℕ) (r : Room) → a ≢ b → update f a r b ≡ f b
update_ne f a b r h = ground arith

-- A property of every object survives an update by an object that has it.
pub update-All {κ} :
    (P : ℕ → Room → Type κ) (f : ℕ → Room) (a : ℕ) (r : Room) (b : ℕ)
    → (a ≡ b → P b r)
    → (a ≢ b → P b (f b))
    → P b (update f a r b)
update-All P f a r b new old = elim (ℕ_discrete a b) [
  | yes same ↦ subst (P b) (sym (ap (update f a r) (sym same) ∙ update_self f a r)) (new same)
  | no other ↦ subst (P b) (sym (update_ne f a b r other)) (old other)
]

-- One room changed in place keeps the manager valid if it keeps its id and stays tidy.
pub update-IsValid :
    (m : RoomManager) (a : ℕ) (r : Room)
    → IsValid m
    → r.id ≡ (m.store a).id
    → (a < m.next → IsTidy r)
    → IsValid (record m { store = update m.store a r })
unfolding get_room_by_id
update-IsValid m a r v same t = record {
  distinct = v.distinct;
  made = v.made;
  own_id = λ id b e. (
    update-All (λ (b : ℕ) (r : Room). r.id ≡ id) m.store a r b
        (λ q. same ∙ ap (λ (c : ℕ). (m.store c).id) q ∙ (v.own_id id b e).0)
        (λ q. (v.own_id id b e).0),
    (v.own_id id b e).1,
  );
  tidy = λ b lt.
      update-All (λ (b : ℕ) (r : Room). IsTidy r) m.store a r b (λ q. t (omega (arith, q)))
        (λ q. v.tidy b lt);
}

-- Who is in the room of an id; nobody, if it is not listed.
abbrev pub members : (ℕ → Room) → Option ℕ → List ℕ
members store none = []
members store (some a) = (store a).users

abbrev pub occupants : ℕ → RoomManager → List ℕ
occupants id m = members m.store (get_room_by_id id m)
