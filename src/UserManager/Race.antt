-- ===== src/UserManager/Race.antt =====
-- src/VChatLib/VUserManager.cpp: `CreateUser` and `RemoveUser` called by any number of threads. The tests of the count in
-- `CreateUser` and in `AddUser` and the insertion each take the lock anew, so one move is one of these.
use model_lib.Common.{
  ℕ, zero, suc, ◌+◌, ◌≤◌, ◌<◌, ◌≡◌, refl, Bool, true, false, Option, none, some, List, [], ◌∷◌,
  length, length-set, get_or, set, sum_by, sum_by-set, le-sum_by, replicate, length-replicate, ◌-◌,
  ◌∙◌, ltb→lt, arith,
}
use model_lib.Common.Assoc
use model_lib.ChatUser.{Methods}
use model_lib.UserManager.{
  UserManager, update, can_create_user, get_user_count, insert_found, insert_user, new_user,
  remove_found, remove_user,
}

-- Where a thread stands in `CreateUser`.
pub data Pc : Type 0 where
  idle : Pc
  counted : (id : ℕ) (session : Option ℕ) (name : List ℕ) → Pc  -- its own test passed
  made : (p : ℕ) → Pc  -- the object is there, before `AddUser`
  tested : (p : ℕ) → Pc  -- the test in `AddUser` passed

pub record System : Type 0 where
  pub manager : UserManager
  pub threads : List Pc

module _ (methods : Methods) (before : ℕ → ℕ → Bool) (max_player : ℕ) where
  pub data Move (r : UserManager) : Pc → UserManager → Pc → Type 0 where
    count :
        (id : ℕ) (session : Option ℕ) (name : List ℕ)
        → can_create_user max_player r ≡ true
        → Move r idle r (counted id session name)
    create :
        {id : ℕ} {session : Option ℕ} {name : List ℕ}
        → Move r
            (counted id session name)
            (record r {
              store = update r.store r.next (new_user methods id session name);
              next = suc r.next;
            })
            (made r.next)
    test : {p : ℕ} → can_create_user max_player r ≡ true → Move r (made p) r (tested p)
    refuse : {p : ℕ} → can_create_user max_player r ≡ false → Move r (made p) r idle
    insert : {p : ℕ} → Move r (tested p) (insert_user methods before p r) idle
    remove : (p : ℕ) → Move r idle (remove_user methods p r).0 idle

  pub data Step (s : System) : System → Type 0 where
    pick :
        (i : ℕ) {r : UserManager} {pc : Pc}
        → i < length s.threads
        → Move s.manager (get_or s.threads i idle) r pc
        → Step s (record { manager = r; threads = set s.threads i pc })

  pub data Reach (s : System) : System → Type 0 where
    here : Reach s s
    next : {t u : System} → Reach s t → Step t u → Reach s u

-- 1 for a thread that is about to insert.
abbrev pub inserting : Pc → ℕ
inserting (tested p) = 1
inserting _ = 0

inserting_le : (pc : Pc) → inserting pc ≤ 1
inserting_le idle = omega arith
inserting_le (counted id session name) = omega arith
inserting_le (made p) = omega arith
inserting_le (tested p) = omega arith

inserting_threads : (ts : List Pc) → sum_by inserting ts ≤ length ts
inserting_threads [] = omega arith
inserting_threads (t ∷ ts) = omega (arith, inserting_le t, inserting_threads ts)

module _ (methods : Methods) (before : ℕ → ℕ → Bool) (max_player : ℕ) where
  length-insert :
      (found : Option ℕ) (p : ℕ) (r : UserManager)
      → length (insert_found methods before found p r).users ≤ suc (length r.users)
  unfolding insert_found
  length-insert none p r = omega (arith, Assoc.length-place before r.users (r.store p).player_id p)
  length-insert (some old) p r = omega (arith, Assoc.length-replace r.users (r.store p).player_id p)

  length-remove :
      (found : Option ℕ) (p : ℕ) (r : UserManager)
      → length (remove_found methods found p r).0.users ≤ length r.users
  unfolding remove_found
  length-remove none p r = omega arith
  length-remove (some q) p r = ground (arith, Assoc.length-erase r.users (r.store p).player_id)

  Move-bound :
      {r r' : UserManager} {pc pc' : Pc} (n others : ℕ)
      → Move methods before max_player r pc r' pc'
      → others + inserting pc' ≤ n
      → length r.users + (others + inserting pc) + 1 ≤ max_player + n
      → length r'.users + (others + inserting pc') + 1 ≤ max_player + n
  unfolding can_create_user get_user_count insert_user remove_user
  Move-bound {r} n others (Move.count id session name h) le w = omega (arith, w)
  Move-bound {r} n others Move.create le w = omega (arith, w)
  Move-bound {r} n others (Move.test h) le w =
      omega (arith, le, ltb→lt (length r.users) max_player h)
  Move-bound {r} n others (Move.refuse h) le w = omega (arith, w)
  Move-bound {r} n others (Move.insert {p}) le w =
      omega (arith, w, length-insert (Assoc.lookup r.users (r.store p).player_id) p r)
  Move-bound {r} n others (Move.remove p) le w =
      omega (arith, w, length-remove (Assoc.lookup r.users (r.store p).player_id) p r)

  -- Users and insertions under way stay below the limit and the number of threads together.
  abbrev IsBounded : System → Type 0
  IsBounded s =
      length s.manager.users + sum_by inserting s.threads + 1 ≤ max_player + length s.threads

  Step-IsBounded : {s t : System} → Step methods before max_player s t → IsBounded s → IsBounded t
  Step-IsBounded {s} (Step.pick i {r} {pc} lt move) v =
      let others = sum_by inserting s.threads - inserting (get_or s.threads i idle) in
      let now : others + inserting (get_or s.threads i idle) ≡ sum_by inserting s.threads =
        omega (arith, le-sum_by inserting s.threads i idle lt) in
      let then_ : others + inserting pc ≡ sum_by inserting (set s.threads i pc) =
        omega (arith, now, sum_by-set inserting s.threads i pc idle lt) in
      omega (
        arith,
        then_,
        length-set s.threads i pc,
        Move-bound (length s.threads) others move
            (omega
              (arith, then_, inserting_threads (set s.threads i pc), length-set s.threads i pc))
            (omega (arith, now, v)),
      )

  threads_kept :
      {s t : System} → Reach methods before max_player s t → length t.threads ≡ length s.threads
  threads_kept Reach.here = refl
  threads_kept (Reach.next {t} r (Step.pick i {r = m} {pc = pc} lt move)) =
      length-set t.threads i pc ∙ threads_kept r

  Reach-IsBounded : {s t : System} → Reach methods before max_player s t → IsBounded s → IsBounded t
  Reach-IsBounded Reach.here v = v
  Reach-IsBounded (Reach.next r st) v = Step-IsBounded st (Reach-IsBounded r v)

  -- `n + 1` threads that do nothing yet.
  abbrev pub start : ℕ → UserManager → System
  start n r = record { manager = r; threads = replicate (suc n) idle }

  idle_threads : (n : ℕ) → sum_by inserting (replicate n idle) ≡ 0
  idle_threads zero = refl
  idle_threads (suc n) = omega (arith, idle_threads n)

  -- With `n + 1` threads in `CreateUser` and `RemoveUser`, in any interleaving, a map that held
  -- `m_nMaxPlayer` users at most exceeds that by `n` at most.
  pub race_bounded :
      (n : ℕ) (r : UserManager) {t : System}
      → Reach methods before max_player (start n r) t
      → length r.users ≤ max_player
      → length t.manager.users ≤ max_player + n
  race_bounded n r {t} reach fits =
      omega (arith, Reach-IsBounded reach begun, threads_kept reach, length-replicate (suc n) idle)
    where
      begun : IsBounded (start n r)
      begun = omega (arith, fits, idle_threads n, length-replicate n idle)
