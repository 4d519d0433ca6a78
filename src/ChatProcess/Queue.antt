-- ===== src/ChatProcess/Queue.antt =====
-- Users that enter and leave a room and its match-making queue, in any order.
use model_lib.Common.{ℕ, ◌≡◌, refl, true, false, Option, some, List, [], ◌∷◌, ◌++◌, All, ◌==◌}
use model_lib.Room.{Room, Effect, remove_usr, add_usr, room_enqueue_mm, room_normal, LogRow}
use model_lib.ChatProcess.{room_enter_mm_queue, room_leave_mm_queue}
use model_lib.ChatProcess.Timer.{
  Timers, hear_all, Agrees, enter-Agrees, leave-Agrees, remove-Agrees,
}

-- The calls of `RoomEnterMMQueue`, `RoomLeaveMMQueue`, `RemoveUsr` and `AddUsr`; `SetStatus`, which nothing in the
-- repository calls, is not one of them. A user joins a room that is not queued, with its timer off.
pub data Step : Room → Timers → Room → Timers → Type 0 where
  enter :
      {r r' : Room} {f : Timers} {es : List Effect} (now : ℕ)
      → room_enter_mm_queue now (some r) ≡ some (r', es)
      → Step r f r' (hear_all es f)
  leave :
      {r r' : Room} {f : Timers} {es : List Effect} {log : Option LogRow} (points : ℕ → ℕ) (now : ℕ)
      → room_leave_mm_queue points now (some r) ≡ some (r', es, log)
      → Step r f r' (hear_all es f)
  part :
      {r : Room} {f : Timers} (p : ℕ) → Step r f (remove_usr p r).0 (hear_all (remove_usr p r).1 f)
  join :
      {r : Room} {f : Timers} (server_of : ℕ → ℕ) (p : ℕ)
      → (r.status == room_enqueue_mm) ≡ false
      → f p ≡ false
      → Step r f (add_usr server_of p r).0 (hear_all (add_usr server_of p r).1 f)

pub data Steps : Room → Timers → Room → Timers → Type 0 where
  here : {r : Room} {f : Timers} → Steps r f r f
  then_step : {r s t : Room} {f g h : Timers} → Steps r f s g → Step s g t h → Steps r f t h

All-snoc {κ} : (P : ℕ → Type κ) (ps : List ℕ) (p : ℕ) → All P ps → P p → All P (ps ++ p ∷ [])
All-snoc P [] p a h = (h, tt)
All-snoc P (q ∷ ps) p a h = (a.0, All-snoc P ps p a.1 h)

join-Agrees :
    (server_of : ℕ → ℕ) (p : ℕ) (r : Room) (f : Timers)
    → (r.status == room_enqueue_mm) ≡ false
    → f p ≡ false
    → Agrees r f
    → Agrees (add_usr server_of p r).0 (hear_all (add_usr server_of p r).1 f)
unfolding add_usr
join-Agrees server_of p r f h off a = All-snoc (λ (q : ℕ). f q ≡ false) r.users p (rw h at a) off

Step-Agrees : {r s : Room} {f g : Timers} → Step r f s g → Agrees r f → Agrees s g
Step-Agrees {r} {s} {f} (Step.enter now e) a = enter-Agrees now r f s _ e
Step-Agrees {r} {s} {f} (Step.leave points now e) a = leave-Agrees points now r f s _ _ a e
Step-Agrees {r} {s} {f} (Step.part p) a = remove-Agrees p r f a
Step-Agrees {r} {s} {f} (Step.join server_of p h off) a = join-Agrees server_of p r f h off a

-- If the timer of each user in a room runs exactly while the room is queued, by the notices they were sent,
-- this stays so however `RoomEnterMMQueue`, `RoomLeaveMMQueue`, `RemoveUsr` and `AddUsr` follow each other, as long
-- as those who join do so while it is not queued and with their timer off. `SetStatus` is not among these
-- calls.
pub Steps-Agrees : {r s : Room} {f g : Timers} → Steps r f s g → Agrees r f → Agrees s g
Steps-Agrees Steps.here a = a
Steps-Agrees (Steps.then_step ss st) a = Step-Agrees st (Steps-Agrees ss a)

-- A user that joins a queued room takes it out of the queue, and nobody is told: the timers of those who were
-- there run on.
add_usr-strands :
    (server_of : ℕ → ℕ) (p : ℕ) (r : Room) (f : Timers)
    → r.status ≡ room_enqueue_mm
    → Agrees r f
    → ((add_usr server_of p r).0.status ≡ room_normal)
      × All (λ (q : ℕ). hear_all (add_usr server_of p r).1 f q ≡ true) r.users
unfolding add_usr
add_usr-strands server_of p r f e a = (refl, rw e at a)
