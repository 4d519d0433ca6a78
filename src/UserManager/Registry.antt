-- ===== src/UserManager/Registry.antt =====
-- The users that a `VUserManager` holds, over its operations one after another.
use model_lib.Common.{
  ℕ, suc, ◌≤◌, ◌<◌, ◌≡◌, ◌≢◌, ◌⊎◌, inl, inr, refl, ap, sym, ◌∙◌, Bool, true, false, Option, none,
  some, List, length, All, Option-cases, ltb→lt, arith, drop, take, map, keep, ◌==◌, ==_ne,
}
use mathlib.Core.Path.{subst}
use mathlib.Core.Option.{some_inj}
use native.Mathlib.Decide.{ℕ_discrete}
use model_lib.Common.Int.{ℤ, pos_part}
use model_lib.Common.Assoc
use model_lib.Common.Page.{upper, guarded-window}
use model_lib.ChatUser.{ChatUser, Methods, close_session}
use model_lib.UserManager.{
  UserManager, update, get_user, get_user_count, insert_found, insert_user, new_user, create_user,
  remove_user, remove_found, get_user_id_array, can_create_user,
}

-- Ids stand once, no more of them than players allowed, and every object is one that was made.
pub record IsValid (max_player : ℕ) (r : UserManager) : Type 0 where
  pub distinct : Assoc.Distinct r.users
  pub fits : length r.users ≤ max_player
  pub made : All (λ (e : ℕ × ℕ). e.1 < r.next) r.users

update_self : (f : ℕ → ChatUser) (p : ℕ) (u : ChatUser) → update f p u p ≡ u
update_self f p u = ground arith

update_off : (f : ℕ → ChatUser) (p q : ℕ) (u : ChatUser) → q ≢ p → update f p u q ≡ f q
update_off f p q u ne = rw (==_ne p q (λ e. ne (sym e))) refl

update_ne : (f : ℕ → ChatUser) (p q : ℕ) (u : ChatUser) → q < p → update f p u q ≡ f q
update_ne f p q u h = ground arith

module _ (methods : Methods) (before : ℕ → ℕ → Bool) where
  pub insert_found-IsValid :
      (max_player p : ℕ) (r : UserManager) (found : Option ℕ)
      → Assoc.lookup r.users (r.store p).player_id ≡ found
      → IsValid max_player r
      → length r.users < max_player
      → p < r.next
      → IsValid max_player (insert_found methods before found p r)
  unfolding insert_found
  insert_found-IsValid max_player p r none e v room made = record {
    distinct = Assoc.Distinct-place before r.users (r.store p).player_id p e v.distinct;
    fits = omega (arith, Assoc.length-place before r.users (r.store p).player_id p);
    made =
        Assoc.All-place (λ (q : ℕ). q < r.next) before r.users (r.store p).player_id p v.made made;
  }
  insert_found-IsValid max_player p r (some old) e v room made = record {
    distinct = Assoc.Distinct-replace r.users (r.store p).player_id p v.distinct;
    fits = omega (arith, Assoc.length-replace r.users (r.store p).player_id p, v.fits);
    made = Assoc.All-replace (λ (q : ℕ). q < r.next) r.users (r.store p).player_id p v.made made;
  }

  get_user-insert :
      (p : ℕ) (r : UserManager) (found : Option ℕ)
      → Assoc.lookup r.users (r.store p).player_id ≡ found
      → (get_user (r.store p).player_id (insert_found methods before found p r) ≡ some p)
        × ((j : ℕ)
            → (r.store p).player_id ≢ j
            → get_user j (insert_found methods before found p r) ≡ get_user j r)
  unfolding insert_found get_user
  get_user-insert p r none e = (
    Assoc.lookup-place_self before r.users (r.store p).player_id p e,
    λ j ne. Assoc.lookup-place_ne before r.users (r.store p).player_id j p ne,
  )
  get_user-insert p r (some old) e = (
    Assoc.lookup-replace_self r.users (r.store p).player_id p old e,
    λ j ne. Assoc.lookup-replace_ne r.users (r.store p).player_id j p ne,
  )

  store-insert :
      (p q : ℕ) (r : UserManager) (found : Option ℕ)
      → found ≢ some q
      → (insert_found methods before found p r).store q ≡ r.store q
  unfolding insert_found
  store-insert p q r none ne = refl
  store-insert p q r (some old) ne = ground (arith, ne)

  -- The object that the allocator gives, with its fields set.
  abbrev pub entered : ℕ → Option ℕ → List ℕ → UserManager → UserManager
  entered id session name r = record r {
    store = update r.store r.next (new_user methods id session name);
    next = suc r.next;
  }

  new_user_id :
      (id : ℕ) (session : Option ℕ) (name : List ℕ)
      → (new_user methods id session name).player_id ≡ id
  unfolding new_user
  new_user_id id session name = methods.player_id-set id _

  kicked-insert :
      (p old : ℕ) (r : UserManager)
      → get_user (r.store p).player_id r ≡ some old
      → (insert_user methods before p r).store old
        ≡ methods.set_kicked (methods.close (methods.join_null_room (r.store old)))
  unfolding insert_user get_user
  kicked-insert p old r e = rw e (update_self r.store old _)

  pub create_user-inserts :
      (max_player id : ℕ) (session : Option ℕ) (name : List ℕ) (r : UserManager)
      → length r.users < max_player
      → create_user methods before max_player true id session name r
        ≡ (insert_user methods before r.next (entered id session name r), some r.next)
  unfolding create_user
  create_user-inserts max_player id session name r room = ground (arith, room)

  -- What `CreateUser` leaves when there is room.
  abbrev pub Adds : ℕ → UserManager → UserManager → Type 0
  Adds id r r' =
      (get_user id r' ≡ some r.next)
      × ((j : ℕ) → id ≢ j → get_user j r' ≡ get_user j r)
      × ((old : ℕ)
          → get_user id r ≡ some old
          → r'.store old
            ≡ methods.set_kicked (methods.close (methods.join_null_room (r.store old))))
      × ((q : ℕ) → q ≢ r.next → get_user id r ≢ some q → r'.store q ≡ r.store q)

  insert_user-Adds :
      (max_player id : ℕ) (u : ChatUser) (r : UserManager)
      → IsValid max_player r
      → u.player_id ≡ id
      → Adds id r (
          insert_user methods before r.next
            (record r { store = update r.store r.next u; next = suc r.next }))
  unfolding insert_user get_user
  insert_user-Adds max_player id u r v e = (
    subst (λ (i : ℕ). get_user i (insert_user methods before r.next r1) ≡ some r.next) k
        (get_user-insert r.next r1 _ refl).0,
    λ j ne. (get_user-insert r.next r1 _ refl).1 j (λ q. ne (sym k ∙ q)),
    λ old h.
        kicked-insert r.next old r1 (ap (λ (i : ℕ). get_user i r1) k ∙ h)
        ∙ ap (λ (w : ChatUser). methods.set_kicked (methods.close (methods.join_null_room w)))
            (update_ne r.store r.next old u
              (Assoc.All-lookup (λ (q : ℕ). q < r.next) r.users id old v.made h)),
    λ q new other.
        store-insert r.next q r1 (get_user (r1.store r.next).player_id r1)
          (λ h. other (ap (λ (i : ℕ). get_user i r1) (sym k) ∙ h))
        ∙ update_off r.store r.next q u new,
  )
    where
      r1 : UserManager
      r1 = record r { store = update r.store r.next u; next = suc r.next }

      k : (r1.store r.next).player_id ≡ id
      k = ap (λ (w : ChatUser). w.player_id) (update_self r.store r.next u) ∙ e

  pub create_user-full :
      (max_player id : ℕ) (session : Option ℕ) (name : List ℕ) (r : UserManager)
      → can_create_user max_player r ≡ false
      → create_user methods before max_player true id session name r ≡ (r, none)
  unfolding create_user can_create_user
  create_user-full max_player id session name r full = ground (arith, full)

  -- With room for one more, `CreateUser` answers with a new object that the map then finds under its id; no
  -- other id and no other object changes. A user that held the id is out of the room, closed and kicked. Without room it changes
  -- nothing and answers null.
  pub create_user-Adds :
      (max_player id : ℕ) (session : Option ℕ) (name : List ℕ) (r : UserManager)
      → IsValid max_player r
      → let (r', answer) = create_user methods before max_player true id session name r in
        (can_create_user max_player r ≡ true → (answer ≡ some r.next) × Adds id r r')
        × (can_create_user max_player r ≡ false → (r' ≡ r) × (answer ≡ none))
  unfolding can_create_user get_user_count
  create_user-Adds max_player id session name r v = (
    λ room.
        rw
          (create_user-inserts max_player id session name r
            (ltb→lt (length r.users) max_player room))
          (
            refl,
            insert_user-Adds max_player id (new_user methods id session name) r v
                (new_user_id id session name),
          ),
    λ full. rw (create_user-full max_player id session name r full) (refl, refl),
  )

  found_here :
      (p : ℕ) (r : UserManager)
      → get_user (r.store p).player_id r ≡ some p
      → remove_user methods p r ≡ (
        record r {
          users = Assoc.erase (r.store p).player_id r.users;
          store = update r.store p (methods.close (methods.join_null_room (r.store p)));
        },
        true,
      )
  unfolding remove_user get_user
  found_here p r e = rw e (ground arith)

  found_other :
      (found : Option ℕ) (p : ℕ) (r : UserManager)
      → found ≢ some p
      → remove_found methods found p r ≡ (r, false)
  unfolding remove_found
  found_other none p r ne = refl
  found_other (some q) p r ne = ground (arith, ne)

  -- `RemoveUser` takes out exactly the user that the map has under the id that the user has now, and then the
  -- user is out of its room and closed and no other id and no other object changes; else nothing changes.
  pub remove_user-cases :
      (max_player p : ℕ) (r : UserManager)
      → IsValid max_player r
      → let id = (r.store p).player_id in
        let (r', answer) = remove_user methods p r in
        ((get_user id r ≡ some p)
          × (answer ≡ true)
          × (get_user id r' ≡ none)
          × ((j : ℕ) → id ≢ j → get_user j r' ≡ get_user j r)
          × (r'.store p ≡ methods.close (methods.join_null_room (r.store p)))
          × ((q : ℕ) → q ≢ p → r'.store q ≡ r.store q))
        ⊎ ((get_user id r ≢ some p) × (r' ≡ r) × (answer ≡ false))
  unfolding remove_user get_user
  remove_user-cases max_player p r v =
      elim (Option-cases (Assoc.lookup r.users (r.store p).player_id)) [
        | inl e ↦ inr (kept r p none (λ q. cc q) e)
        | inr (q, e) ↦ elim (ℕ_discrete q p) [
          | yes same ↦
              let e' : Assoc.lookup r.users (r.store p).player_id ≡ some p = e ∙ ap some same in
              inl (
                rw (found_here p r e') (
                  e',
                  refl,
                  Assoc.lookup-erase_self r.users (r.store p).player_id v.distinct,
                  λ j ne. Assoc.lookup-erase_ne r.users (r.store p).player_id j ne,
                  update_self r.store p _,
                  λ q ne. update_off r.store p q _ ne,
                ))
          | no other ↦
              let ne : some q ≢ some p = λ h. other (some_inj.0 h) in inr (kept r p (some q) ne e)
        ]
      ]
    where
      kept :
          (r : UserManager) (p : ℕ) (found : Option ℕ)
          → found ≢ some p
          → Assoc.lookup r.users (r.store p).player_id ≡ found
          → (get_user (r.store p).player_id r ≢ some p)
            × ((remove_user methods p r).0 ≡ r)
            × ((remove_user methods p r).1 ≡ false)
      kept r p found ne e = rw (e, found_other found p r ne) (ne, refl, refl)

  -- After `CloseSession` of a user that is registered, and not under the id 0, which `CloseSession` sets,
  -- `RemoveUser` no longer finds the user: the map
  -- keeps it under its old id.
  pub close_session-strands :
      (p id : ℕ) (r : UserManager)
      → get_user id r ≡ some p
      → get_user 0 r ≢ some p
      → let closed = record r { store = update r.store p (close_session (r.store p)) } in
        (remove_user methods p closed ≡ (closed, false)) × (get_user id closed ≡ some p)
  unfolding remove_user get_user close_session
  close_session-strands p id r here away = (
    found_other (Assoc.lookup r.users (after p).player_id) p (record r { store = after })
        (λ h. away (ap (Assoc.lookup r.users) (sym zeroed) ∙ h)),
    here,
  )
    where
      after : ℕ → ChatUser
      after = update r.store p (close_session (r.store p))

      zeroed : (after p).player_id ≡ 0
      zeroed = ap (λ (u : ChatUser). u.player_id) (update_self r.store p _)

-- `GetUserIDArray` returns the ids of the users of the server from number `from` to below `to`, in the order
-- of the map; a negative `to` stands for the end and a negative `from` for the start.
get_user_id_array-window :
    (server : ℕ) (from to : ℤ) (r : UserManager)
    → get_user_id_array server from to r
      ≡ drop (pos_part from) (
          take (upper to (length r.users)) (
            map
              (λ (e : ℕ × ℕ). (r.store e.1).player_id)
              (keep (λ (e : ℕ × ℕ). (r.store e.1).server_id == server) r.users)))
unfolding get_user_id_array
get_user_id_array-window server from to r =
    guarded-window (λ (e : ℕ × ℕ). (r.store e.1).server_id == server)
      (λ (e : ℕ × ℕ). (r.store e.1).player_id) r.users from (upper to (length r.users))
