-- ===== src/ChatProcess.antt =====
-- src/VChatLib/VChatProcessPacketManager.cpp: the handlers of packets from players in the game. What they ask of
-- the database, the user registry and the user is a parameter; what they do is a list of actions. `none` is a
-- fault: a read past the packet or of a string that is gone, or a null pointer dereferenced.
pub mod Guards
pub mod ChatLog
pub mod Table
pub mod Friends
pub mod Timer
pub mod Queue
use model_lib.Common.{
  ℕ, zero, suc, ◌-◌, Bool, true, false, not, Option, none, some, ◌>>=◌, List, [], ◌∷◌, ◌++◌, ◌==◌,
  ◌&&◌, ltb, if◌then◌else◌, length, get_or, take,
}
use model_lib.Common.Int.{ℤ, pos, negsuc}
use model_lib.ChatUser.{ChatUser}
use model_lib.Session.Address.{VString}
use model_lib.ChatProcess.ChatLog.{ChatRow, write_log_chat}
use model_lib.Room.{
  Room, Effect, start_mm, stop_mm, send_packet, start_mm_timer, stop_mm_timer, LogRow,
  write_log_match_making,
}

-- CHAT_SERVER, kChatNormal and CHAT_GLOBAL.
pub data ChatType : Type 0 where
  chat_server chat_normal chat_global : ChatType

-- `CreateBufferChat`, `GetRoleId`, and what is known of a user and a room. `is_lobby` is the test
-- `GetId() % SequenceRoom == 0`.
pub record World : Type 0 where
  pub is_gm : ℕ → Bool
  pub chat_user : ℕ → ChatUser
  pub alive : ℕ → Bool  -- the sessions that exist
  pub remote : ℕ → Option VString  -- the address of a session's peer
  pub room_of : ℕ → Option ℕ
  pub is_lobby : ℕ → Bool
  pub role_id : List ℕ → ℤ
  pub online : ℕ → Option ℕ
  pub create_buffer_chat : ChatType → ℕ → List ℕ

pub data Action : Type 0 where
  log_chat : ChatRow → Action  -- the row that `WriteLogChat` writes
  room_chat : ℕ → List ℕ → Action  -- `SendPacket` of a room
  global_chat : List ℕ → Action  -- `SendGlobalPacket`
  kick : ℕ → Action  -- `SetState(VUser::KICK)`
  add_ban : ℕ → Action
  kick_role : ℕ → Action

-- A packet is a pointer, perhaps null, to `length` bytes that may be read, and `nSize`. Bytes are up to 255.
abbrev pub Packet : Type 0
Packet = Option (List ℕ) × ℕ

-- packet[i]
unfoldable pub byte_at : List ℕ → ℕ → Option ℕ
byte_at bytes i = if ltb i (length bytes) then some (get_or bytes i 0) else none

-- A C string, up to its zero.
unfoldable pub c_string : List ℕ → Option (List ℕ)
c_string [] = none
c_string (c ∷ cs) = if c == 0 then some [] else (do rest ← c_string cs; some (c ∷ rest))

-- WriteBuffer(packet, nSize)
unfoldable pub read : List ℕ → ℕ → Option (List ℕ)
read bytes n = if ltb (length bytes) n then none else some (take n bytes)

-- The bytes of a chat line, ':' after the name.
unfoldable pub chat_line : World → ℕ → ℕ → List ℕ → List ℕ
chat_line w usr room text =
    let kind = if w.is_lobby room then ChatType.chat_server else ChatType.chat_normal in
    w.create_buffer_chat kind (w.chat_user usr).player_id
    ++ (w.chat_user usr).user_name
    ++ 58 ∷ text

unfoldable pub chat_in : World → Option ℕ → ℕ → List ℕ → List Action
unfolding chat_line
chat_in w none usr text = []
chat_in w (some room) usr text = room_chat room (chat_line w usr room text) ∷ []

-- Once the guard has passed; the log takes the C string, and comes first: where it faults nothing is sent.
unfoldable pub chat : World → ℕ → List ℕ → ℕ → Option (List Action)
unfolding c_string read chat_in write_log_chat
chat w usr bytes size = do
  content ← c_string bytes
  row ← write_log_chat w.alive w.remote (w.chat_user usr) (some content) 1
  text ← read bytes size
  some (log_chat row ∷ chat_in w (w.room_of usr) usr text)

unfoldable pub process_chat : World → ℕ → Packet → Option (List Action)
unfolding byte_at chat
process_chat w usr (none, size) = some []
process_chat w usr (some bytes, zero) = some []
process_chat w usr (some bytes, suc zero) = some []
process_chat w usr (some bytes, suc (suc n)) = do
  last ← byte_at bytes (suc n)
  if last == 0 then chat w usr bytes (suc (suc n)) else some []

-- `usr->IsGM() && packet && packet[0]`: the handler goes on with the C string, or stops.
unfoldable pub gm_text : World → ℕ → Option (List ℕ) → Option (Option (List ℕ))
unfolding byte_at c_string
gm_text w usr none = some none
gm_text w usr (some bytes) =
    let go : Option (Option (List ℕ)) = (do
      first ← byte_at bytes 0
      if first == 0 then some none else (do name ← c_string bytes; some (some name))) in
    if w.is_gm usr then go else some none

-- if (Id >= 0) …
unfoldable pub ban_role : World → ℤ → List Action
ban_role w (negsuc n) = []
ban_role w (pos id) = elim (w.online id) [ none ↦ [] | some u ↦ kick u ∷ add_ban id ∷ [] ]

unfoldable pub kick_by_role : ℤ → List Action
kick_by_role (negsuc n) = []
kick_by_role (pos id) = kick_role id ∷ []

unfoldable pub process_ban_nick : World → ℕ → Packet → Option (List Action)
unfolding gm_text ban_role
process_ban_nick w usr (packet, size) = do
  text ← gm_text w usr packet
  some (elim text [ none ↦ [] | some name ↦ ban_role w (w.role_id name) ])

unfoldable pub process_kick_user : World → ℕ → Packet → Option (List Action)
unfolding gm_text kick_by_role
process_kick_user w usr (packet, size) = do
  text ← gm_text w usr packet
  some (elim text [ none ↦ [] | some name ↦ kick_by_role (w.role_id name) ])

-- The notice is the `nSize` bytes, not the C string.
unfoldable pub notify : World → List ℕ → ℕ → Option (List Action)
unfolding read
notify w bytes size = do
  body ← read bytes size
  some (global_chat (w.create_buffer_chat ChatType.chat_global 0 ++ body) ∷ [])

unfoldable pub process_notify_global : World → ℕ → Packet → Option (List Action)
unfolding byte_at notify
process_notify_global w usr (none, size) = some []
process_notify_global w usr (some bytes, size) =
    let go : Option (List Action) = (do
      first ← byte_at bytes 0
      if first == 0 then some [] else notify w bytes size) in
    if w.is_gm usr then go else some []

-- The handlers of the match-making queue, on the room of the user: null is `none`.
unfoldable pub room_enter_mm_queue : ℕ → Option Room → Option (Room × List Effect)
unfolding start_mm send_packet
room_enter_mm_queue now none = none
room_enter_mm_queue now (some r) =
    let (r', started) = start_mm now r in some (r', send_packet start_mm_timer r')

-- The last part is the row of the log, if one is written.
unfoldable pub room_leave_mm_queue :
    (ℕ → ℕ) → ℕ → Option Room → Option (Room × List Effect × Option LogRow)
unfolding stop_mm send_packet
room_leave_mm_queue points now none = none
room_leave_mm_queue points now (some r) =
    let (r', stopped) = stop_mm r in
    some (
      if stopped
      then (r', send_packet stop_mm_timer r', write_log_match_making points now (some r') none 1)
      else (r', [], none))
