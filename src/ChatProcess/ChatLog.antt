-- ===== src/ChatProcess/ChatLog.antt =====
-- src/VChatLib/VChatProcessPacketManager.cpp: `WriteLogChat`, the row of a chat message. `WriteLog` of the log manager
-- is not in the repository: a row is what it is called with. `ProcessChat` writes one.
use model_lib.Common.{
  ℕ, Option-cases, ltb, if◌then◌else◌, arith, ◌<◌, ◌≡◌, refl, ◌⊎◌, inl, inr, Bool, Option, none,
  some, ◌>>=◌, [], ◌∷◌,
}
use model_lib.User.{get_session}
use model_lib.ChatUser.{ChatUser}
use model_lib.Session.Address.{
  VString, no_address, get_session_address, get_address, assign_temporary, copy_address,
}

pub record ChatRow : Type 0 where
  pub server_id : ℕ
  pub action_type : ℕ  -- its place in `ActionType`
  pub user_name : VString
  pub player_id : ℕ
  pub address : VString
  pub contents : VString

-- `pszContent ? pszContent : " "`
abbrev contents_or : Option VString → VString
contents_or none = 32 ∷ []
contents_or (some text) = text

abbrev pub chat_row : ChatUser → Option VString → ℕ → VString → ChatRow
chat_row u content type address = record {
  server_id = u.server_id;
  action_type = type;
  user_name = u.user_name;
  player_id = u.player_id;
  address = address;
  contents = contents_or content;
}

module _ (alive : ℕ → Bool) (remote : ℕ → Option VString) where
  -- `none` is a read past `ActionType`, of which there are four, or of a string that is gone.
  unfoldable pub write_log_chat : ChatUser → Option VString → ℕ → Option ChatRow
  unfolding get_session get_session_address
  write_log_chat u content type = do
    address ← get_session_address remote (get_session alive u.base)
    if ltb type 4 then some (chat_row u content type address) else none

  -- The player has no session, or the address of its peer cannot be had.
  abbrev pub Unaddressed : ChatUser → Type 0
  Unaddressed u =
      (get_session alive u.base ≡ none)
      ⊎ ((s : ℕ) × (get_session alive u.base ≡ some s) × (remote s ≡ none))

  -- The player is connected, with an address: then the log reads a string that is gone.
  abbrev pub Addressed : ChatUser → Type 0
  Addressed u =
      (s : ℕ) × (text : VString) × (get_session alive u.base ≡ some s) × (remote s ≡ some text)

  -- For one of the four types.
  pub write_log_chat-cases :
      (u : ChatUser) (content : Option VString) (type : ℕ)
      → type < 4
      → (Unaddressed u
          × (write_log_chat u content type ≡ some (chat_row u content type no_address)))
        ⊎ (Addressed u × (write_log_chat u content type ≡ none))
  unfolding write_log_chat get_session_address get_address assign_temporary copy_address
  write_log_chat-cases u content type h = elim (Option-cases (get_session alive u.base)) [
    | inl e ↦ inl (inl e, rw e (ground arith))
    | inr (s, e) ↦ elim (Option-cases (remote s)) [
      | inl none_there ↦ inl (inr (s, e, none_there), rw (e, none_there) (ground arith))
      | inr (text, there) ↦ inr ((s, text, e, there), rw (e, there) refl)
    ]
  ]
