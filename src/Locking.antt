-- ===== src/Locking.antt =====
-- The locks of src/VChatLib/VChatRoom.h, VChatRoom.cpp, VChatRoomManager.h, VUserManager.cpp and src/VNetWork/VUser.cpp:
-- what each method locks and touches, in order, and threads that run such methods. What the methods compute is the
-- subject of Room, RoomManager, UserManager and User.
pub mod Rooms
pub mod Users
pub mod Operations
pub mod Ordered
pub mod Discipline
pub mod Managed
pub mod Exclusion
pub mod Finishing
pub mod Runs
pub mod Together
use model_lib.Common.{
  ℕ, zero, suc, ◌+◌, ◌<◌, ◌≤◌, ◌≡◌, ◌⊎◌, Bool, true, false, List, [], ◌∷◌, All, ◌==◌, if◌then◌else◌,
  length,
}
use model_lib.Locks.{Side, exclusive, shared}

-- A mutex, by its place in the order in which they nest and the number of the object that has it.
pub record Mutex : Type 0 where
  pub rank : ℕ
  pub number : ℕ

-- `m_Mutex` of the `VUserManager`, of the `VChatRoomManager`, of a room and of a user.
abbrev pub user_manager : Mutex
user_manager = record { rank = 0; number = 0 }

abbrev pub room_manager : Mutex
room_manager = record { rank = 1; number = 0 }

abbrev pub room : ℕ → Mutex
room r = record { rank = 2; number = r }

abbrev pub user : ℕ → Mutex
user u = record { rank = 3; number = u }

pub data RoomField : Type 0 where
  id game_mode server_id status mm_start_time : RoomField

-- What threads share, but for the ids and the name of a user: `m_pUsers`, `m_Rooms`, `m_Users` of a room, its other fields, `m_State` and `m_Session` of a
-- user.
pub data Location : Type 0 where
  all_users : Location
  all_rooms : Location
  users_of : ℕ → Location
  field_of : RoomField → ℕ → Location
  state_of : ℕ → Location
  session_of : ℕ → Location

-- The accesses of a method and the guards that it declares, in order. To read is on the shared side and to write on
-- the exclusive one. A guard has what is done until it is unlocked, and what follows.
pub data Script : Type 0 where
  stop : Script
  touches : Side → Location → Script → Script
  guards : Side → Mutex → Script → Script → Script

infixr 30 ◌then◌
abbrev pub ◌then◌ : Script → Script → Script
stop then t = t
touches side l s then t = touches side l (s then t)
guards side m body s then t = guards side m body (s then t)

abbrev pub one_by_one : List Script → Script
one_by_one [] = Script.stop
one_by_one (s ∷ ss) = s then one_by_one ss

abbrev pub reads : Location → Script
reads l = Script.touches shared l Script.stop

abbrev pub writes : Location → Script
writes l = Script.touches exclusive l Script.stop

-- `VReadLock lock(m)` and `VWriteLock lock(m)` or `ScopedLock lock(m)`, up to the end of the block.
abbrev pub read_locked : Mutex → Script → Script
read_locked m body = Script.guards shared m body Script.stop

abbrev pub write_locked : Mutex → Script → Script
write_locked m body = Script.guards exclusive m body Script.stop

pub data Call : Type 0 where
  acquire : Side → Mutex → Call
  touch : Side → Location → Call
  release : Call

-- The calls of a script, and then others.
unfoldable pub calls : Script → List Call → List Call
calls Script.stop rest = rest
calls (Script.touches side l s) rest = Call.touch side l ∷ calls s rest
calls (Script.guards side m body s) rest =
    Call.acquire side m ∷ calls body (Call.release ∷ calls s rest)

pub record Hold : Type 0 where
  pub side : Side
  pub mutex : Mutex

-- The guards that a thread has, the last one first, and what it has still to do.
pub record Thread : Type 0 where
  pub held : List Hold
  pub rest : List Call

abbrev pub all_but_last : List Hold → List Hold
all_but_last [] = []
all_but_last (h ∷ hs) = hs

unfoldable pub after : Thread → Thread
after t = elim t.rest [
  | [] ↦ t
  | call ∷ cs ↦ elim call [
    | acquire side m ↦ record { held = record { side = side; mutex = m } ∷ t.held; rest = cs }
    | touch side l ↦ record { held = t.held; rest = cs }
    | release ↦ record { held = all_but_last t.held; rest = cs }
  ]
]

-- On that side or more.
abbrev pub Covers : Side → Side → Type 0
Covers exclusive side = Unit {0}
Covers shared shared = Unit {0}
Covers shared exclusive = ⊥

abbrev pub Holds : List Hold → Side → Mutex → Type 0
Holds [] side m = ⊥
Holds (h ∷ hs) side m = ((h.mutex ≡ m) × Covers h.side side) ⊎ Holds hs side m

-- What keeps a lock on this side out.
abbrev pub against : Side → Side
against exclusive = shared
against shared = exclusive

abbrev pub Wants : Thread → Side → Mutex → Type 0
Wants t side m = (cs : List Call) × (t.rest ≡ Call.acquire side m ∷ cs)

-- Whether the next call can be made. `prefers`: a thread that waits for the exclusive side keeps readers out, as
-- boost's `shared_mutex` does.
abbrev pub Next : Bool → (ℕ → Thread) → List Call → Type 0
Next prefers s [] = ⊥
Next prefers s (Call.acquire side m ∷ cs) =
    ((j : ℕ) → ¬ Holds (s j).held (against side) m)
    × ((prefers ≡ true) → (side ≡ shared) → (j : ℕ) → ¬ Wants (s j) exclusive m)
Next prefers s (Call.touch side l ∷ cs) = Unit {0}
Next prefers s (Call.release ∷ cs) = Unit {0}

abbrev pub Ready : Bool → (ℕ → Thread) → Thread → Type 0
Ready prefers s t = Next prefers s t.rest

abbrev pub update : (ℕ → Thread) → ℕ → Thread → ℕ → Thread
update s i t j = if i == j then t else s j

-- One of `n` threads makes its next call.
pub data Step (prefers : Bool) (n : ℕ) (s : ℕ → Thread) : (ℕ → Thread) → Type 0 where
  pick : (i : ℕ) → i < n → Ready prefers s (s i) → Step prefers n s (update s i (after (s i)))

-- So many steps.
pub data Steps (prefers : Bool) (n : ℕ) : (ℕ → Thread) → ℕ → (ℕ → Thread) → Type 0 where
  here : (s : ℕ → Thread) → Steps prefers n s 0 s
  first :
      {s t : ℕ → Thread} {k : ℕ} {u : ℕ → Thread}
      → Step prefers n s t
      → Steps prefers n t k u
      → Steps prefers n s (suc k) u
