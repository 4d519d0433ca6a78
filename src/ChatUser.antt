-- ===== src/ChatUser.antt =====
-- src/VChatLib/VChatUser.h, VChatUser.cpp: `VChatUser`. What the sources call on it and do not define
-- (`JoinRoom`, `Close`, `SetUserName`, …) is the record `Methods`.
pub mod Sending
use model_lib.Common.{ℕ, Bool, List, [], Option, none, some, ◌>>=◌, ◌≡◌}
use model_lib.User.{User, login, logout, set_state, get_session}
use model_lib.SimpleBuffer.{Buffer, new_joined}
use model_lib.Session.Wire.{Header, encode_header, header_size}
use model_lib.Session.Queue.{write_two}

-- An identifier, a `VInt32`, is the number of its bits.
pub record ChatUser : Type 0 where
  pub base : User
  pub server_id : ℕ
  pub player_id : ℕ
  pub user_name : List ℕ

-- `CloseSession()`, which overrides that of `VUser`.
unfoldable pub close_session : ChatUser → ChatUser
unfolding set_state
close_session u = record {
  base = set_state logout (record u.base { seq = 0; key = 0 });
  server_id = 0;
  player_id = 0;
  user_name = [];
}

-- The methods that the repository calls and does not define: what each leaves of the user. `SetPlayerID`
-- sets what `GetPlayerID` returns.
pub record Methods : Type 0 where
  pub created : ChatUser
  pub set_session_ex : Option ℕ → ChatUser → ChatUser
  pub set_user_name : List ℕ → ChatUser → ChatUser
  pub set_player_id : ℕ → ChatUser → ChatUser
  pub join_null_room : ChatUser → ChatUser
  pub close : ChatUser → ChatUser
  pub set_kicked : ChatUser → ChatUser
  pub player_id-set : (id : ℕ) (u : ChatUser) → (set_player_id id u).player_id ≡ id

-- The header that `SendPacket` builds: `crc` and `seq` are what the stack held.
unfoldable pub packet_header : ℕ → ℕ → ℕ → ℕ → Header
packet_header crc seq type len = record { len = len; crc = crc; seq = seq; type = type }

-- `send_packet` of the session, if there is one: the buffer that is posted to it. `memory` is what the block of the
-- buffer held; a read past the packet is the outer `none`.
unfoldable pub send_to : Option ℕ → Header → Option (List ℕ) → List ℕ → Option (Option (ℕ × Buffer))
unfolding write_two
send_to none header packet memory = some none
send_to (some s) header packet memory = do
  posted ← write_two (some (encode_header header)) header_size packet header.len memory
  some (do b ← posted; some (s, b))

-- `SendPacket(nPacketType, pPacket, nLen)`, from its header on.
unfoldable pub send_packet :
    (ℕ → Bool) → Header → Option (List ℕ) → List ℕ → ChatUser → Option (Option (ℕ × Buffer))
unfolding get_session send_to
send_packet alive header packet memory u = send_to (get_session alive u.base) header packet memory
