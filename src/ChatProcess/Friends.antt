-- ===== src/ChatProcess/Friends.antt =====
-- src/VChatLib/VChatProcessPacketManager.cpp: `RequestZMEFriends`, `RequestZCBillingURL` and `SendBillingURL`. The friends
-- and the records of roles come from parts outside the repository, as does `VBuffer`: its content is the
-- list of the objects and texts that were written.
pub mod Reading
pub mod Missing
use model_lib.Common.{
  codes, ℕ, ◌+◌, Bool, true, false, Option, none, some, List, [], ◌∷◌, ◌++◌, ltb, if◌then◌else◌,
  length,
}
use model_lib.Common.Int.{ℤ, pos, negsuc}

pub data Field : Type 0 where
  number : ℤ → Field
  text : List ℕ → Field

-- A friend of the service, with the ids of its roles.
pub record Friend : Type 0 where
  pub display_name : List ℕ
  pub url : List ℕ
  pub role_ids : List ℤ

-- What is written of a role's record.
pub record RoleRecord : Type 0 where
  pub server_id : ℤ
  pub sex : ℤ
  pub level : ℤ
  pub role_name : List ℕ

-- `GetZMEFriends`, `FindRecordEx`, and whether `GetUser` finds a user.
pub record Services : Type 0 where
  pub friends : ℕ → ℤ → ℤ → List Friend
  pub find_record : ℤ → Option RoleRecord
  pub is_online : ℤ → Bool

-- WriteObject(nOnlineStatus)
abbrev pub flag : Bool → ℤ
flag true = pos 1
flag false = pos 0

-- nFrom >= 0 && nFrom < nTo
unfoldable pub is_window : ℤ → ℤ → Bool
is_window (pos from) (pos to) = ltb from to
is_window (pos from) (negsuc to) = false
is_window (negsuc from) to = false

module _ (services : Services) where
  unfoldable pub write_found : ℤ → Option RoleRecord → List Field
  write_found id none = []
  write_found id (some r) =
      number r.server_id
      ∷ number id
      ∷ number r.sex
      ∷ number r.level
      ∷ number (flag (services.is_online id))
      ∷ text r.role_name
      ∷ []

  -- A role without a record is passed over.
  unfoldable pub write_roles : List ℤ → List Field
  unfolding write_found
  write_roles [] = []
  write_roles (id ∷ ids) = write_found id (services.find_record id) ++ write_roles ids

  unfoldable pub write_friends : List Friend → List Field
  unfolding write_roles
  write_friends [] = []
  write_friends (f ∷ fs) =
      text f.display_name ∷ text f.url ∷ number (pos (length f.role_ids)) ∷ write_roles f.role_ids
      ++ write_friends fs

  -- The answer to a player with such friends.
  unfoldable pub friends_buffer : List Friend → List Field
  unfolding write_friends
  friends_buffer [] = []
  friends_buffer (f ∷ fs) = number (pos (length (f ∷ fs))) ∷ write_friends (f ∷ fs)

  -- The packet that `RequestZMEFriends` sends to the player, if any.
  unfoldable pub request_zme_friends : ℕ → ℤ → ℤ → Option (List Field)
  unfolding is_window friends_buffer
  request_zme_friends player from to =
      if is_window from to then some (friends_buffer (services.friends player from to)) else none

-- The text that `RequestZCBillingURL` asks the service with; `cast` is `lexical_cast<VString>`.
unfoldable pub billing_query : (ℤ → List ℕ) → ℤ → List ℕ → ℤ → List ℕ
billing_query cast zing_id account_name item_id =
    codes "accountid="
    ++ cast zing_id
    ++ codes "&accountname="
    ++ account_name
    ++ codes "&itemid="
    ++ cast item_id

-- `SendBillingURL`: the user that is still there and its packet.
unfoldable pub send_billing_url : (ℕ → Option ℕ) → ℕ → List ℕ → Option (ℕ × List Field)
send_billing_url get_user player url = elim (get_user player) [
  | none ↦ none
  | some u ↦ some (u, text url ∷ [])
]

-- `tm`, as far as it is read.
pub record LocalTime : Type 0 where
  pub tm_year : ℕ
  pub tm_mon : ℕ
  pub tm_mday : ℕ

-- What `CodeZME` requests: the code of the packet, the digest of the date, the server and the player. `format` is
-- boost::format at "%04d%02d%02d".
unfoldable pub code_zme :
    (List ℕ → List ℕ) → (ℕ → ℕ → ℕ → List ℕ) → LocalTime → List ℕ → ℕ → ℕ → List ℕ × List ℕ × ℕ × ℕ
code_zme md5 format now code server player =
    (code, md5 (format (1900 + now.tm_year) (now.tm_mon + 1) now.tm_mday), server, player)
