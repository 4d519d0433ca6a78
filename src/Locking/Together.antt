-- ===== src/Locking/Together.antt =====
-- Threads that call the methods of rooms, of users and of their managers.
use model_lib.Common.{
  ℕ, zero, suc, ◌+◌, ◌≤◌, ◌≡◌, refl, ap, Bool, true, List, [], ◌∷◌, length, map, All, get_or, arith,
}
use model_lib.Locking.{Script, Thread, Steps, calls}
use model_lib.Locking.Rooms.{Methods}
use model_lib.Locking.Operations.{Operation, script, thread, start}
use model_lib.Locking.Ordered.{Follows}
use model_lib.Locking.Discipline.{Disciplined}
use model_lib.Locking.Managed.{thread-Follows}
use model_lib.Locking.Exclusion.{Inv, Steps-Inv}
use model_lib.Locking.Runs.{left, Steps-left, finishes}

get_or-beyond :
    (programs : List (List Operation)) (i : ℕ) → length programs ≤ i → get_or programs i [] ≡ []
get_or-beyond [] i h = refl
get_or-beyond (p ∷ programs) zero h = absurd (omega arith)
get_or-beyond (p ∷ programs) (suc i) h = get_or-beyond programs i (omega arith)

-- What the method does is in the repository: it is the same whatever the methods do that the repository calls and does
-- not define.
abbrev pub IsOwn : Operation → Type 0
IsOwn op = (a b : Methods) → script a op ≡ script b op

abbrev silent : Methods
silent = record {
  set_room = λ u. Script.stop;
  reset_room = λ u. Script.stop;
  join_null_room = λ u. Script.stop;
  close = λ u. Script.stop;
  set_session_ex = λ u. Script.stop;
  get_match_making_point = λ u. Script.stop;
  handler = λ u. Script.stop;
}

silent-Disciplined : Disciplined silent
silent-Disciplined = record {
  set_room = λ u held below. tt;
  reset_room = λ u held below. tt;
  get_match_making_point = λ u held below. tt;
  handler = λ u held below. tt;
  join_null_room = λ u held below. tt;
  close = λ u held below. tt;
  set_session_ex = λ u. tt;
}

own_scripts :
    (methods : Methods) (ops : List Operation)
    → All IsOwn ops
    → map (script methods) ops ≡ map (script silent) ops
own_scripts methods [] own = refl
own_scripts methods (op ∷ ops) own = rw (own.0 methods silent, own_scripts methods ops own.1) refl

own-Follows :
    (methods : Methods) (ops : List Operation)
    → All IsOwn ops
    → Follows [] (thread methods ops).rest
own-Follows methods ops own =
    rw (own_scripts methods ops own) (thread-Follows silent silent-Disciplined ops)

get_or-IsOwn :
    (programs : List (List Operation)) (i : ℕ)
    → All (All IsOwn) programs
    → All IsOwn (get_or programs i [])
get_or-IsOwn [] i own = tt
get_or-IsOwn (p ∷ programs) zero own = own.0
get_or-IsOwn (p ∷ programs) (suc i) own = get_or-IsOwn programs i own.1

start-Inv :
    (methods : Methods) (programs : List (List Operation))
    → All (All IsOwn) programs
    → Inv (length programs) (start methods programs)
unfolding calls
start-Inv methods programs own = record {
  follows = λ i. own-Follows methods (get_or programs i []) (get_or-IsOwn programs i own);
  alone = λ i j m ne h k. h;
  beyond = λ i above.
      ap (λ (ops : List Operation). (thread methods ops).rest) (get_or-beyond programs i above);
}

-- Any number of threads call methods of the rooms, of the users and of the managers of both, one after another, each
-- one that the repository defines with all that it calls. However they have run so far, there is a run from
-- there to where all have finished, even if a thread that waits for the exclusive side keeps readers
-- out; so they are never deadlocked. What has been run and what is left are all the calls that there
-- were, so no run is longer.
pub no_deadlock :
    (methods : Methods) (prefers : Bool) (programs : List (List Operation)) {k : ℕ} {s : ℕ → Thread}
    → All (All IsOwn) programs
    → Steps prefers (length programs) (start methods programs) k s
    → (t : ℕ → Thread) × Steps true (length programs) s (left (length programs) s) t
      × ((i : ℕ) → (t i).rest ≡ [])
      × (k + left (length programs) s ≡ left (length programs) (start methods programs))
no_deadlock methods prefers programs {k} {s} own run =
    let v = Steps-Inv (start-Inv methods programs own) run in
    let (t, ss, done) = finishes (left (length programs) s) true (length programs) s v refl in
    (t, ss, done, Steps-left run)
