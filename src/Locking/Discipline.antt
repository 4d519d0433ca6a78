-- ===== src/Locking/Discipline.antt =====
-- Every method nests its mutexes in the order and has the guard of what it touches.
use model_lib.Common.{
  ℕ, ◌≤◌, refl, inl, Bool, true, false, not, List, [], ◌∷◌, map, arith, if◌then◌else◌,
}
use model_lib.Locks.{Side, exclusive, shared}
use model_lib.Locking.{Script, ◌then◌, one_by_one, Hold, RoomField, room}
use model_lib.Locking.Ordered.{guard_of, Below, Ordered, then-Ordered}
use model_lib.Locking.Rooms.{
  Methods, when, nobody, set_field_script, get_field_script, send_script, send_packet_script,
  set_status_script, get_users_script, look_up_script, start_mm_script, stop_mm_script,
  get_mm_time_script, for_each_user_script, add_usr_script, remove_usr_script, get_criteria_script,
  get_mm_point_script, visit_script,
}

-- An assumption on the methods that are not in the repository, which nothing there documents: those that are called under the guard of a room lock no
-- more than the mutexes of users, those that are called under the guard of the manager of the users no mutex
-- of it, and all have the guard of what they touch.
pub record Disciplined (methods : Methods) : Type 0 where
  pub set_room : (u : ℕ) (held : List Hold) → Below 3 held → Ordered held (methods.set_room u)
  pub reset_room : (u : ℕ) (held : List Hold) → Below 3 held → Ordered held (methods.reset_room u)
  pub get_match_making_point :
      (u : ℕ) (held : List Hold) → Below 3 held → Ordered held (methods.get_match_making_point u)
  pub handler : (u : ℕ) (held : List Hold) → Below 3 held → Ordered held (methods.handler u)
  pub join_null_room :
      (u : ℕ) (held : List Hold) → Below 1 held → Ordered held (methods.join_null_room u)
  pub close : (u : ℕ) (held : List Hold) → Below 1 held → Ordered held (methods.close u)
  pub set_session_ex : (u : ℕ) → Ordered [] (methods.set_session_ex u)

pub Below-mono : (a b : ℕ) (held : List Hold) → a ≤ b → Below a held → Below b held
Below-mono a b [] le below = tt
Below-mono a b (h ∷ held) le below = (omega (arith, below.0), Below-mono a b held le below.1)

pub when-Ordered :
    (held : List Hold) (b : Bool) (s : Script) → Ordered held s → Ordered held (when b s)
when-Ordered held true s o = o
when-Ordered held false s o = tt

pub if-Ordered :
    (held : List Hold) (b : Bool) (s t : Script)
    → Ordered held s
    → Ordered held t
    → Ordered held (if b then s else t)
if-Ordered held true s t o q = o
if-Ordered held false s t o q = q

-- One script for each user.
pub each-Ordered :
    (held : List Hold) (f : ℕ → Script) (us : List ℕ)
    → ((u : ℕ) → Ordered held (f u))
    → Ordered held (one_by_one (map f us))
each-Ordered held f [] o = tt
each-Ordered held f (u ∷ us) o =
    then-Ordered held (f u) (one_by_one (map f us)) (o u) (each-Ordered held f us o)

pub send-Ordered : (held : List Hold) (u : ℕ) → Ordered held (send_script u)
unfolding send_script guard_of
send-Ordered held u = (tt, tt)

pub tell-Ordered : (held : List Hold) (us : List ℕ) → Ordered held (one_by_one (map send_script us))
tell-Ordered held us = each-Ordered held send_script us (send-Ordered held)

abbrev in_room : Side → ℕ → List Hold → List Hold
in_room side r held = record { side = side; mutex = room r } ∷ held

module _ (held : List Hold) (below : Below 2 held) where
  in_room-Below : (side : Side) (r : ℕ) → Below 3 (in_room side r held)
  in_room-Below side r = (omega arith, Below-mono 2 3 held (omega arith) below)

  pub set_field-Ordered : (f : RoomField) (r : ℕ) → Ordered held (set_field_script f r)
  unfolding set_field_script guard_of
  set_field-Ordered f r = (below, (tt, tt), tt)

  pub get_field-Ordered : (f : RoomField) (r : ℕ) → Ordered held (get_field_script f r)
  unfolding get_field_script guard_of
  get_field-Ordered f r = (below, tt, (tt, tt))

  pub send_packet-Ordered :
      (is_valid : Bool) (r : ℕ) (us : List ℕ) → Ordered held (send_packet_script is_valid r us)
  unfolding send_packet_script guard_of
  send_packet-Ordered is_valid r us =
      when-Ordered held is_valid _
        (below, (inl (refl, tt), tell-Ordered (in_room shared r held) us), tt)

  pub set_status-Ordered :
      (found is_valid : Bool) (r : ℕ) (us : List ℕ)
      → Ordered held (set_status_script found is_valid r us)
  unfolding set_status_script guard_of
  set_status-Ordered found is_valid r us =
      (below, (tt, (tt, tt)), when-Ordered held found _ (send_packet-Ordered is_valid r us))

  pub get_users-Ordered : (r : ℕ) → Ordered held (get_users_script r)
  unfolding get_users_script guard_of
  get_users-Ordered r = (below, (inl (refl, tt), tt), tt)

  pub look_up-Ordered : (r : ℕ) → Ordered held (look_up_script r)
  unfolding look_up_script guard_of
  look_up-Ordered r = (below, (inl (refl, tt), tt), tt)

  pub start_mm-Ordered : (queued : Bool) (r : ℕ) → Ordered held (start_mm_script queued r)
  unfolding start_mm_script guard_of
  start_mm-Ordered queued r =
      (below, (tt, when-Ordered (in_room exclusive r held) (not queued) _ (tt, (tt, tt))), tt)

  pub stop_mm-Ordered : (queued : Bool) (r : ℕ) → Ordered held (stop_mm_script queued r)
  unfolding stop_mm_script guard_of
  stop_mm-Ordered queued r =
      (below, (tt, when-Ordered (in_room exclusive r held) queued _ (tt, tt)), tt)

  pub get_mm_time-Ordered : (r : ℕ) → Ordered held (get_mm_time_script r)
  unfolding get_mm_time_script guard_of
  get_mm_time-Ordered r = (tt, tt)

  module _ (methods : Methods) (d : Disciplined methods) where
    pub for_each_user-Ordered :
        (r : ℕ) (us : List ℕ) → Ordered held (for_each_user_script methods r us)
    unfolding for_each_user_script guard_of
    for_each_user-Ordered r us =
        let inner = in_room shared r held in
        (
          below,
          (
            inl (refl, tt),
            each-Ordered inner methods.handler us (λ u. d.handler u inner (in_room-Below shared r)),
          ),
          tt,
        )

    pub add_usr-Ordered : (r u : ℕ) → Ordered held (add_usr_script methods r u)
    unfolding add_usr_script guard_of
    add_usr-Ordered r u = (
      below,
      (
        tt,
        (inl (refl, tt), (tt, d.set_room u (in_room exclusive r held) (in_room-Below exclusive r))),
      ),
      tt,
    )

    pub get_mm_point-Ordered :
        (r : ℕ) (us : List ℕ) → Ordered held (get_mm_point_script methods r us)
    unfolding get_mm_point_script guard_of
    get_mm_point-Ordered r us =
        let inner = in_room shared r held in
        (
          below,
          (
            inl (refl, tt),
            each-Ordered inner methods.get_match_making_point us
                (λ u. d.get_match_making_point u inner (in_room-Below shared r)),
          ),
          tt,
        )

    pub remove_usr-Ordered :
        (there queued : Bool) (r u : ℕ) (us : List ℕ)
        → Ordered held (remove_usr_script methods there queued r u us)
    unfolding remove_usr_script guard_of
    remove_usr-Ordered there queued r u us =
        let inner = in_room exclusive r held in
        let unset = when-Ordered inner (nobody us) _ (tt, (tt, tt)) in
        let told = when-Ordered inner queued _ (tell-Ordered inner us) in
        let left = d.reset_room u inner (in_room-Below exclusive r) in
        let after_told =
          then-Ordered inner (when queued (one_by_one (map send_script us))) _ told (tt, tt) in
        let after_left = then-Ordered inner (methods.reset_room u) _ left (tt, after_told) in
        (
          below,
          (
            inl (refl, tt),
            when-Ordered inner there _
                (inl (refl, tt), then-Ordered inner (when (nobody us) _) _ unset after_left),
          ),
          tt,
        )

    pub get_criteria-Ordered :
        (r : ℕ) (us : List ℕ) → Ordered held (get_criteria_script methods r us)
    unfolding get_criteria_script guard_of
    get_criteria-Ordered r us =
        let inner = in_room shared r held in
        let points =
          each-Ordered inner methods.get_match_making_point us
            (λ u. d.get_match_making_point u inner (in_room-Below shared r)) in
        (below, (inl (refl, tt), when-Ordered inner (not (nobody us)) _ (tt, (tt, points))), tt)

    pub visit-Ordered : (v : ℕ × Bool × Bool × List ℕ) → Ordered held (visit_script methods v)
    unfolding visit_script get_field_script guard_of
    visit-Ordered (r, is_mm, queued, us) =
        let seen = when-Ordered held queued _ (get_criteria-Ordered r us) in
        (below, tt, (tt, when-Ordered held is_mm _ (below, tt, (tt, seen))))
