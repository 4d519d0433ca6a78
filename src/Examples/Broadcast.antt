-- ===== src/Examples/Broadcast.antt =====
-- A chat message in a room of three users, one of whom has no session: src/VChatLib/VChatRoom.cpp.
use model_lib.Common.{
  ℕ, ◌≡◌, refl, true, false, none, some, List, [], ◌∷◌, replicate, if◌then◌else◌, ◌==◌,
}
use model_lib.Common.Int.{pos}
use model_lib.User.{User, new_user, get_session}
use model_lib.Room.{new_room}
use model_lib.ChatProcess.{World, process_chat, chat, byte_at, c_string}
use model_lib.ChatProcess.ChatLog.{write_log_chat}
use model_lib.Session.Address.{get_session_address, get_address, assign_temporary, copy_address}
use model_lib.Session.{Session, Reading}
use model_lib.Pipeline.Broadcast.{Server, chat_posts}

abbrev blank : User
blank = new_user 0 (replicate 256 0)

-- User `u` is on session `u`, but for user 8. The address of a session cannot be had.
abbrev world : World
world = record {
  is_gm = λ u. false;
  chat_user = λ u. record {
    base = record blank { session = if u == 8 then none else some u };
    server_id = 3;
    player_id = u;
    user_name = 65 ∷ [];
  };
  alive = λ s. true;
  remote = λ s. none;
  room_of = λ u. some 12;
  is_lobby = λ r. false;
  role_id = λ name. pos 3;
  online = λ id. some 8;
  create_buffer_chat = λ t id. 1 ∷ id ∷ [];
}

abbrev server : Server
server = record {
  world = world;
  rooms = λ r. record (new_room 0) { id = r; users = 7 ∷ 8 ∷ 9 ∷ [] };
  everyone = 7 ∷ 8 ∷ 9 ∷ [];
  chat_message = 3;
  crc = 0;
  seq = 0;
  memory = [];
}

-- "B"
abbrev hello : List ℕ
hello = 66 ∷ 0 ∷ []

abbrev line : List ℕ
line = 1 ∷ 7 ∷ 65 ∷ 58 ∷ 66 ∷ 0 ∷ []

abbrev waiting : Session
waiting = record {
  data_ = replicate 1024 0;
  header_ = record { len = 0; crc = 0; seq = 0; type = 0 };
  user = some 5;
  reading = Reading.header;
}

-- Where the address can be had, the log reads a string that is gone, and the message is not sent.
connected :
    chat_posts
      (record server { world = record world { remote = λ s. some (49 ∷ []) } })
      7
      (some hello, 2)
    ≡ none
unfolding chat_posts process_chat chat write_log_chat get_session get_session_address get_address
    assign_temporary copy_address byte_at c_string
connected = refl
