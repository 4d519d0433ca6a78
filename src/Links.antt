-- ===== src/Links.antt =====
-- Which session a user has and which user a session has: `reset`, `close_socket` and `set_user` of `session`
-- (src/VNetWork/VAsyncServer.hpp), and the end of a session in `session_manager`, over the users of
-- src/VNetWork/VUser.cpp and src/VChatLib/VChatUser.cpp. Both sides hold the other by a weak pointer; sessions and users have numbers.
pub mod Paired
pub mod History
use model_lib.Common.{ℕ, Bool, true, false, Option, none, some, ◌==◌, if◌then◌else◌}
use model_lib.User.{set_session_external}
use model_lib.ChatUser.{ChatUser, close_session}

-- `user_` of each session, and whether its socket is open.
pub record Links : Type 0 where
  pub users : ℕ → ChatUser
  pub user_of : ℕ → Option ℕ
  pub is_open : ℕ → Bool

abbrev pub update {ℓ} : {A : Type ℓ} → (ℕ → A) → ℕ → A → ℕ → A
update f p v q = if p == q then v else f q

-- `set_user(refUser)`
unfoldable pub set_user : ℕ → Option ℕ → Links → Links
set_user s u l = record l { user_of = update l.user_of s u }

-- The user's half of a login on a session, which calls `set_user`.
unfoldable pub told : Option (ℕ × ℕ) → Links → Links
unfolding set_user
told none l = l
told (some (s, u)) l = set_user s (some u) l

unfoldable pub log_in : ℕ → ℕ → Links → Links
unfolding told
log_in u s l =
    let (user, calls) = set_session_external (some s) u (l.users u).base in
    told calls (record l { users = update l.users u (record (l.users u) { base = user }) })

-- user_.lock(): `alive` is whether the user still exists.
unfoldable pub lock : (ℕ → Bool) → Option ℕ → Option ℕ
lock alive none = none
lock alive (some u) = if alive u then some u else none

-- if (VUserRef refUser = …) refUser->CloseSession(), which is virtual: the users are all `VChatUser`.
unfoldable pub close_locked : Option ℕ → Links → Links
close_locked none l = l
close_locked (some u) l = record l { users = update l.users u (close_session (l.users u)) }

-- `reset`
unfoldable pub reset : (ℕ → Bool) → ℕ → Links → Links
unfolding lock close_locked
reset alive s l = close_locked (lock alive (l.user_of s)) l

-- `close_socket`
unfoldable pub close_socket : ℕ → Links → Links
close_socket s l = record l {
  user_of = update l.user_of s none;
  is_open = update l.is_open s false;
}

-- `session_manager::close_session`: a session that is not kept is destroyed, with its socket and its pointer.
unfoldable pub end_session : (ℕ → Bool) → ℕ → Links → Links
unfolding reset close_socket
end_session alive s l = close_socket s (reset alive s l)
