-- ===== src/UserManager/History.antt =====
-- Histories of calls on a `VUserManager`, one after another, with anything done to the users between them.
use model_lib.Common.{
  ℕ, ◌<◌, ◌≡◌, inl, inr, refl, Bool, true, false, Option, none, some, List, [], ◌∷◌, length,
  Bool-cases, ltb→lt, arith, sym, ==_refl, ==_ne,
}
use native.Mathlib.Decide.{ℕ_discrete}
use model_lib.Common.Assoc
use model_lib.ChatUser.{ChatUser, Methods}
use model_lib.UserManager.{
  UserManager, update, get_user_count, can_create_user, insert_user, create_user, remove_found,
  remove_user,
}
use model_lib.UserManager.Registry.{
  IsValid, insert_found-IsValid, create_user-inserts, create_user-full, entered,
}

-- `change p u`: a method of the user at `p`, such as `CloseSession`, leaves `u` there.
pub data Call : Type 0 where
  create : Bool → ℕ → Option ℕ → List ℕ → Call
  remove : ℕ → Call
  change : ℕ → ChatUser → Call

module _ (methods : Methods) (before : ℕ → ℕ → Bool) (max_player : ℕ) where
  abbrev pub call : Call → UserManager → UserManager
  call (create memory id session name) r =
      (create_user methods before max_player memory id session name r).0
  call (remove p) r = (remove_user methods p r).0
  call (change p u) r = record r { store = update r.store p u }

  abbrev pub user_calls : List Call → UserManager → UserManager
  user_calls [] r = r
  user_calls (c ∷ cs) r = user_calls cs (call c r)

  remove_found-IsValid :
      (found : Option ℕ) (p : ℕ) (r : UserManager)
      → IsValid max_player r
      → IsValid max_player (remove_found methods found p r).0
  unfolding remove_found
  remove_found-IsValid none p r v = v
  remove_found-IsValid (some q) p r v = elim (ℕ_discrete q p) [
    | yes same ↦ rw (sym same) (
        rw (==_refl q) (record {
          distinct = Assoc.Distinct-erase r.users (r.store q).player_id v.distinct;
          fits = omega (arith, v.fits, Assoc.length-erase r.users (r.store q).player_id);
          made = Assoc.All-erase (λ (a : ℕ). a < r.next) r.users (r.store q).player_id v.made;
        }))
    | no other ↦ rw (==_ne q p other) v
  ]

  no_memory :
      (id : ℕ) (session : Option ℕ) (name : List ℕ) (r : UserManager)
      → create_user methods before max_player false id session name r ≡ (r, none)
  unfolding create_user
  no_memory id session name r = ground arith

  create_user-IsValid :
      (memory : Bool) (id : ℕ) (session : Option ℕ) (name : List ℕ) (r : UserManager)
      → IsValid max_player r
      → IsValid max_player (create_user methods before max_player memory id session name r).0
  unfolding insert_user can_create_user get_user_count
  create_user-IsValid false id session name r v = rw (no_memory id session name r) v
  create_user-IsValid true id session name r v = elim (Bool-cases (can_create_user max_player r)) [
    | inr full ↦ rw (create_user-full methods before max_player id session name r full) v
    | inl room ↦
        let lt : length r.users < max_player = ltb→lt (length r.users) max_player room in
        rw (create_user-inserts methods before max_player id session name r lt) (
          insert_found-IsValid methods before max_player r.next
            (entered methods before id session name r) _ refl
            (record {
              distinct = v.distinct;
              fits = v.fits;
              made = Assoc.All-below_suc r.next r.users v.made;
            })
            lt (omega arith))
  ]

  -- Over any calls, one after another, on a manager of which this holds: each id stands for one user at
  -- most, the map never has more users than `m_nMaxPlayer`, and it holds only objects that the
  -- allocator gave.
  pub user_calls-IsValid :
      (cs : List Call) (r : UserManager)
      → IsValid max_player r
      → IsValid max_player (user_calls cs r)
  unfolding remove_user
  user_calls-IsValid [] r v = v
  user_calls-IsValid (create memory id session name ∷ cs) r v =
      user_calls-IsValid cs _ (create_user-IsValid memory id session name r v)
  user_calls-IsValid (remove p ∷ cs) r v = user_calls-IsValid cs _ (removed p r v)
    where
      removed :
          (p : ℕ) (r : UserManager)
          → IsValid max_player r
          → IsValid max_player (remove_user methods p r).0
      removed p r v = remove_found-IsValid (Assoc.lookup r.users (r.store p).player_id) p r v
  user_calls-IsValid (change p u ∷ cs) r v =
      user_calls-IsValid cs _ (record { distinct = v.distinct; fits = v.fits; made = v.made })
