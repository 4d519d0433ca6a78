-- ===== src/Locking/Ordered.antt =====
-- The order in which the mutexes nest, and the locations that a mutex guards.
use model_lib.Common.{ℕ, ◌<◌, ◌≡◌, ◌≢◌, Option, none, some, List, [], ◌∷◌, All}
use model_lib.Locks.{Side}
use model_lib.Locking.{
  Mutex, user_manager, room_manager, room, user, Location, all_users, all_rooms, users_of, field_of,
  state_of, session_of, Script, ◌then◌, one_by_one, Call, calls, Hold, all_but_last, Holds, after,
}

-- The mutex that guards a location, where one does. The fields of a room but for its users are handed out by
-- reference, and are read when the lock is gone; `GetSession` reads `m_Session` without the lock.
unfoldable pub guard_of : Location → Option Mutex
guard_of all_users = some user_manager
guard_of all_rooms = some room_manager
guard_of (users_of r) = some (room r)
guard_of (field_of f r) = none
guard_of (state_of u) = some (user u)
guard_of (session_of u) = none

abbrev pub Below : ℕ → List Hold → Type 0
Below rank held = All (λ (h : Hold). h.mutex.rank < rank) held

abbrev pub Guarded : List Hold → Side → Option Mutex → Type 0
Guarded held side none = Unit {0}
Guarded held side (some m) = Holds held side m

-- Under these guards a script locks only mutexes that come later in the order, and has the guard of what it touches.
abbrev pub Ordered : List Hold → Script → Type 0
Ordered held Script.stop = Unit {0}
Ordered held (Script.touches side l s) = Guarded held side (guard_of l) × Ordered held s
Ordered held (Script.guards side m body s) =
    Below m.rank held × Ordered (record { side = side; mutex = m } ∷ held) body × Ordered held s

abbrev pub Follows : List Hold → List Call → Type 0
Follows held [] = held ≡ []
Follows held (Call.acquire side m ∷ cs) =
    Below m.rank held × Follows (record { side = side; mutex = m } ∷ held) cs
Follows held (Call.touch side l ∷ cs) = Guarded held side (guard_of l) × Follows held cs
Follows held (Call.release ∷ cs) = (held ≢ []) × Follows (all_but_last held) cs

pub Ordered-Follows :
    (held : List Hold) (s : Script) (rest : List Call)
    → Ordered held s
    → Follows held rest
    → Follows held (calls s rest)
unfolding calls
Ordered-Follows held Script.stop rest o f = f
Ordered-Follows held (Script.touches side l s) rest o f = (o.0, Ordered-Follows held s rest o.1 f)
Ordered-Follows held (Script.guards side m body s) rest (below, inner, outer) f = (
  below,
  Ordered-Follows (record { side = side; mutex = m } ∷ held) body (Call.release ∷ calls s rest)
      inner ((λ e. cc), Ordered-Follows held s rest outer f),
)

pub then-Ordered :
    (held : List Hold) (s t : Script) → Ordered held s → Ordered held t → Ordered held (s then t)
then-Ordered held Script.stop t o q = q
then-Ordered held (Script.touches side l s) t o q = (o.0, then-Ordered held s t o.1 q)
then-Ordered held (Script.guards side m body s) t (below, inner, outer) q =
    (below, inner, then-Ordered held s t outer q)

pub one_by_one-Ordered :
    (held : List Hold) (ss : List Script) → All (Ordered held) ss → Ordered held (one_by_one ss)
one_by_one-Ordered held [] o = tt
one_by_one-Ordered held (s ∷ ss) o =
    then-Ordered held s (one_by_one ss) o.0 (one_by_one-Ordered held ss o.1)

-- A thread that follows the order still does so after its next call.
pub after-Follows :
    (held : List Hold) (rest : List Call)
    → Follows held rest
    → let t = after (record { held = held; rest = rest }) in Follows t.held t.rest
unfolding after
after-Follows held [] f = f
after-Follows held (Call.acquire side m ∷ cs) f = f.1
after-Follows held (Call.touch side l ∷ cs) f = f.1
after-Follows held (Call.release ∷ cs) f = f.1
