-- ===== src/Links/History.antt =====
-- Histories of logins and ends of sessions.
use model_lib.Common.{ℕ, ◌≡◌, ◌≢◌, Bool, true, none, some}
use model_lib.Links.{Links, log_in, end_session}

-- A history of logins, each of a new user on a session that has none, and of ends of sessions.
pub data History (alive : ℕ → Bool) : Links → Type 0 where
  nobody :
      (l : Links)
      → ((u : ℕ) → (l.users u).base.session ≡ none)
      → ((s : ℕ) → l.user_of s ≡ none)
      → History alive l
  logs_in :
      (u s : ℕ) (l : Links)
      → l.user_of s ≡ none
      → ((t : ℕ) → l.user_of t ≢ some u)
      → History alive l
      → History alive (log_in u s l)
  ends :
      (s : ℕ) (l : Links)
      → ((u : ℕ) → l.user_of s ≡ some u → alive u ≡ true)
      → History alive l
      → History alive (end_session alive s l)
