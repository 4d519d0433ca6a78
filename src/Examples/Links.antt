-- ===== src/Examples/Links.antt =====
-- Users and sessions at concrete inputs.
use model_lib.Common.{ℕ, Bool, true, none, []}
use model_lib.User.{new_user}
use model_lib.Links.{Links, log_in}
use model_lib.Links.History.{History}

abbrev exist : ℕ → Bool
exist u = true

abbrev nothing : Links
nothing = record {
  users = λ u. record { base = new_user 0 []; server_id = 3; player_id = u; user_name = [] };
  user_of = λ s. none;
  is_open = λ s. true;
}

-- User 5 logs in on session 2, and user 6 on session 3.
abbrev both : Links
both = log_in 6 3 (log_in 5 2 nothing)
