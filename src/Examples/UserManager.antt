-- ===== src/Examples/UserManager.antt =====
-- src/VChatLib/VUserManager.cpp: two users of one id, a user that has closed its session, a page of ids.
use model_lib.Common.{
  Bool, length, ◌≤◌, ◌+◌, ℕ, ◌≡◌, ◌≢◌, ◌⊎◌, refl, true, false, none, some, [], ◌∷◌, arith,
}
use model_lib.User
use model_lib.ChatUser.{ChatUser, Methods, close_session}
use model_lib.UserManager.{
  UserManager, update, get_user, can_create_user, create_user, remove_user, get_user_count,
  insert_user, new_user,
}
use model_lib.UserManager.Registry.{
  IsValid, Adds, create_user-Adds, remove_user-cases, close_session-strands,
}
use model_lib.UserManager.Race
use model_lib.UserManager.Race.{System, Step, Reach, Move, idle, count, test, insert, race_bounded}
use model_lib.UserManager.History.{create, remove, change, user_calls, user_calls-IsValid}

abbrev user_of : ℕ → ChatUser
user_of id = record { base = User.new_user 0 []; server_id = 3; player_id = id; user_name = [] }

-- Methods that change only what they are named for.
abbrev methods : Methods
methods = record {
  created = user_of 0;
  set_session_ex = λ s u. record u { base = record u.base { session = s } };
  set_user_name = λ name u. record u { user_name = name };
  set_player_id = λ id u. record u { player_id = id };
  join_null_room = λ u. u;
  close = λ u. record u { base = record u.base { session = none } };
  set_kicked = λ u. record u { server_id = 99 };
  player_id-set = λ id u. refl;
}

-- The user 7 at address 1.
abbrev manager : UserManager
manager = record { users = (7, 1) ∷ []; store = λ p. user_of 7; next = 2 }

manager-IsValid : IsValid 2 manager
manager-IsValid = record { distinct = (refl, tt); fits = omega arith; made = (omega arith, tt) }

create_user-Adds_example :
    (can_create_user 2 manager ≡ true
      → ((create_user methods (λ a b. true) 2 true 7 none [] manager).1 ≡ some 2)
        × Adds methods
            (λ a b. true)
            7
            manager
            (create_user methods (λ a b. true) 2 true 7 none [] manager).0)
    × (can_create_user 2 manager ≡ false
        → ((create_user methods (λ a b. true) 2 true 7 none [] manager).0 ≡ manager)
          × ((create_user methods (λ a b. true) 2 true 7 none [] manager).1 ≡ none))
create_user-Adds_example =
    create_user-Adds methods (λ a b. true) 2 7 none [] manager manager-IsValid

user_calls-IsValid_example : IsValid 2 (
    user_calls methods
      (λ a b. true)
      2
      (create true 7 none []
        ∷ change 2 (user_of 8)
        ∷ remove 2
        ∷ create true 9 none []
        ∷ create true 5 none []
        ∷ [])
      manager)
user_calls-IsValid_example =
    user_calls-IsValid methods (λ a b. true) 2
      (create true 7 none []
        ∷ change 2 (user_of 8)
        ∷ remove 2
        ∷ create true 9 none []
        ∷ create true 5 none []
        ∷ [])
      manager manager-IsValid

remove_user-cases_example :
    ((get_user 7 manager ≡ some 1)
      × ((remove_user methods 1 manager).1 ≡ true)
      × (get_user 7 (remove_user methods 1 manager).0 ≡ none)
      × ((j : ℕ) → 7 ≢ j → get_user j (remove_user methods 1 manager).0 ≡ get_user j manager)
      × ((remove_user methods 1 manager).0.store 1
          ≡ methods.close (methods.join_null_room (manager.store 1)))
      × ((q : ℕ) → q ≢ 1 → (remove_user methods 1 manager).0.store q ≡ manager.store q))
    ⊎ ((get_user 7 manager ≢ some 1)
        × ((remove_user methods 1 manager).0 ≡ manager)
        × ((remove_user methods 1 manager).1 ≡ false))
remove_user-cases_example = remove_user-cases methods (λ a b. true) 2 1 manager manager-IsValid

close_session-strands_example :
    (remove_user methods 1
        (record manager { store = update manager.store 1 (close_session (user_of 7)) })
      ≡ (record manager { store = update manager.store 1 (close_session (user_of 7)) }, false))
    × (get_user 7 (record manager { store = update manager.store 1 (close_session (user_of 7)) })
        ≡ some 1)
unfolding get_user
close_session-strands_example =
    close_session-strands methods (λ a b. true) 1 7 manager refl (λ h. cc h)

abbrev nobody : UserManager
nobody = record { users = []; store = λ p. user_of 7; next = 1 }

abbrev any_order : ℕ → ℕ → Bool
any_order a b = true

-- Threads 0 and 1 both pass both tests before either inserts, with room for one.
abbrev both_tested : UserManager
both_tested = record {
  users = [];
  store =
      update (update nobody.store 1 (new_user methods 7 none [])) 2 (new_user methods 8 none []);
  next = 3;
}

abbrev crowded : System
crowded = record {
  manager = insert_user methods any_order 2 (insert_user methods any_order 1 both_tested);
  threads = idle ∷ idle ∷ [];
}

crowded-Reach : Reach methods any_order 1 (Race.start methods any_order 1 1 nobody) crowded
unfolding can_create_user get_user_count insert_user new_user
crowded-Reach =
    Reach.next
      (Reach.next
        (Reach.next
          (Reach.next
            (Reach.next
              (Reach.next
                (Reach.next
                  (Reach.next Reach.here (Step.pick 0 (omega arith) (count 7 none [] refl)))
                  (Step.pick 1 (omega arith) (count 8 none [] refl)))
                (Step.pick 0 (omega arith) Move.create))
              (Step.pick 1 (omega arith) Move.create))
            (Step.pick 0 (omega arith) (test refl)))
          (Step.pick 1 (omega arith) (test refl)))
        (Step.pick 0 (omega arith) insert))
      (Step.pick 1 (omega arith) insert)

race_bounded_example : length crowded.manager.users ≤ 1 + 1
race_bounded_example = race_bounded methods any_order 1 1 nobody crowded-Reach (omega arith)

overshoot : length crowded.manager.users ≡ 2
unfolding insert_user new_user
overshoot = refl
