-- ===== src/Pipeline/Broadcast.antt =====
-- From a chat message of a player to the sessions of the room: `ProcessChat` of src/VChatLib/VChatProcessPacketManager.cpp,
-- `SendPacket` of src/VChatLib/VChatRoom.cpp and `SendGlobalPacket` of VUserManager.cpp, and `SendBuffer` of
-- src/VNetWork/VUser.cpp.
use model_lib.Common.{ℕ, Option, none, some, ◌>>=◌, List, [], ◌∷◌, ◌++◌, map, length, if◌then◌else◌}
use model_lib.User.{get_session}
use model_lib.SimpleBuffer.{Buffer, is_valid, new_joined}
use model_lib.Room.{Room}
use model_lib.ChatUser.{packet_header}
use model_lib.ChatProcess.{World, Action, room_chat, global_chat, process_chat}
use model_lib.Session.{Session}
use model_lib.Session.Wire.{encode_header, header_size}
use model_lib.Session.Queue.{send_buffer}
use model_lib.Session.Framing.{Packet}

-- What a chat message meets: the users and the sessions that exist, the rooms, all users in the order of their map, and
-- what the memory held that a header and a buffer are put in.
pub record Server : Type 0 where
  pub world : World
  pub rooms : ℕ → Room
  pub everyone : List ℕ
  pub chat_message : ℕ  -- s2c_chat_message
  pub crc : ℕ
  pub seq : ℕ
  pub memory : List ℕ

abbrev pub put {ℓ} : {A : Type ℓ} → Option A → List A → List A
put none xs = xs
put (some x) xs = x ∷ xs

-- `SendBuffer` of each user: the sessions that the buffer is posted to.
unfoldable pub send_each : Server → Buffer → List ℕ → List (ℕ × Buffer)
unfolding get_session send_buffer
send_each server b [] = []
send_each server b (u ∷ us) =
    let post : Option (ℕ × Buffer) = (do
      s ← get_session server.world.alive (server.world.chat_user u).base
      b' ← send_buffer b
      some (s, b')) in
    put post (send_each server b us)

-- `SendPacket` of a room and `SendGlobalPacket`: one buffer for all; none where it is not valid.
unfoldable pub broadcast : Server → List ℕ → List ℕ → Option (List (ℕ × Buffer))
unfolding packet_header new_joined send_each
broadcast server packet us =
    let header = packet_header server.crc server.seq server.chat_message (length packet) in
    do
      b ←
          new_joined (some (encode_header header)) header_size (some packet) header.len
            server.memory
      some (if is_valid b then send_each server b us else [])

-- The packets that an action sends; the others put nothing on a session.
unfoldable pub act_posts : Server → Action → Option (List (ℕ × Buffer))
unfolding broadcast
act_posts server (room_chat room line) = broadcast server line (server.rooms room).users
act_posts server (global_chat line) = broadcast server line server.everyone
act_posts server _ = some []

unfoldable pub all_posts : Server → List Action → Option (List (ℕ × Buffer))
unfolding act_posts
all_posts server [] = some []
all_posts server (a ∷ acts) = do
  posts ← act_posts server a
  rest ← all_posts server acts
  some (posts ++ rest)

-- `ProcessChat`, to what is posted to which session.
unfoldable pub chat_posts : Server → ℕ → Option (List ℕ) × ℕ → Option (List (ℕ × Buffer))
unfolding process_chat all_posts
chat_posts server usr packet = do acts ← process_chat server.world usr packet; all_posts server acts

-- The sessions of users that have one.
abbrev pub sessions : Server → List ℕ → List ℕ
sessions server [] = []
sessions server (u ∷ us) =
    put (get_session server.world.alive (server.world.chat_user u).base) (sessions server us)

abbrev pub to_each : Buffer → List ℕ → List (ℕ × Buffer)
to_each b = map (λ s. (s, b))

-- The packet that a line of chat is sent as.
abbrev pub chat_packet : Server → List ℕ → Packet
chat_packet server line = record {
  head = packet_header server.crc server.seq server.chat_message (length line);
  payload = line;
}
