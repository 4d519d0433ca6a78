-- ===== src/Config.antt =====
-- src/VChatLib/VConfigureManager.cpp: `VConfigureManager`, the configuration that is read at the start. Texts are
-- lists of bytes. boost::program_options, which reads the file and splits a line into words, and
-- boost::lexical_cast are parameters.
pub mod Lists
pub mod Address
use model_lib.Common.{
  codes, ℕ, zero, suc, ◌+◌, ◌%◌, ◌^◌, Option, none, some, ◌>>=◌, List, [], ◌∷◌, ◌++◌, ◌==◌, ltb,
  if◌then◌else◌, min, length, get_or, set, take, drop, replicate,
}
use model_lib.Common.Int.{ℤ, pos, negsuc}

abbrev pub Text : Type 0
Text = List ℕ

-- DB_CONFIG_NAME
pub data DbConfig : Type 0 where
  social guild guild_global account : DbConfig

-- VConfigDB
pub record Db : Type 0 where
  pub db_name : Text
  pub db_user : Text
  pub db_pass : Text
  pub db_server : Text

-- The options of the file that hold an unsigned number, a VInt32 and a text.
pub data UnsignedOption : Type 0 where
  opt_max_session opt_recycle_session opt_server_port opt_social_port : UnsignedOption

pub data SignedOption : Type 0 where
  opt_max_player opt_max_room opt_interval_db_update opt_change_update : SignedOption
  opt_limit_member_in_guild opt_limit_request_join_guild : SignedOption
  opt_match_making_interval opt_guild_recharge_asset_rate : SignedOption

pub data TextOption : Type 0 where
  opt_db_server opt_db_name opt_db_user opt_db_pass : DbConfig → TextOption
  opt_log_address opt_match_making_delta opt_match_making_min_room opt_chat_address : TextOption
  opt_web_service_address opt_zm_get_friend_file opt_z_credit_file : TextOption
  opt_sgn_process_file : TextOption

-- What `parse_config_file` finds for each option.
pub record Parsed : Type 0 where
  pub unsigned_value : UnsignedOption → Option ℕ
  pub signed_value : SignedOption → Option ℤ
  pub text_value : TextOption → Option Text

-- `file` is `none` where the file does not open, and `some none` where the parser throws.
pub record Environment : Type 0 where
  pub file : Option (Option Parsed)
  pub split : Text → List Text  -- `po::split_unix(…, "; ")`
  pub cast : Text → Option ℤ  -- `lexical_cast<VInt32>`; `none` throws

pub record Config : Type 0 where
  pub cfg : DbConfig → Db
  pub max_session : ℕ
  pub recycle_session : ℕ
  pub port : ℕ
  pub max_player : ℤ
  pub max_room : ℤ
  pub interval_db_update : ℤ
  pub change_update : ℤ
  pub log_addr : Text
  pub social_port : ℕ
  pub limit_member_in_guild : ℤ
  pub limit_request_join_guild : ℤ
  pub match_making_interval : ℤ
  pub match_making_delta : List ℤ
  pub min_mm_room : List ℤ
  pub chat_addr : Text
  pub chat_port : Text
  pub web_service_addr : Text
  pub zm_get_friend_file : Text
  pub z_credit_file : Text
  pub sgn_process_file : Text
  pub guild_recharge_asset_rate : ℤ

-- MM_CONFIG_NUM_PLAYERS, and MM_CONFIG_NUM_DELTA, which is the same.
abbrev pub num_players : ℕ
num_players = 5

abbrev pub no_db : Db
no_db = record { db_name = []; db_user = []; db_pass = []; db_server = [] }

-- The constructor, up to `Start`. It leaves the two arrays as the memory was.
unfoldable pub new_config : List ℤ → List ℤ → Config
new_config delta min_room = record {
  cfg = λ db. no_db;
  max_session = 10000;
  recycle_session = 1000;
  port = 1234;
  max_player = pos 65536;
  max_room = pos 4096;
  interval_db_update = pos 0;
  change_update = pos 0;
  log_addr = [];
  social_port = 6065;
  limit_member_in_guild = pos 0;
  limit_request_join_guild = pos 0;
  match_making_interval = pos 10000;
  match_making_delta = delta;
  min_mm_room = min_room;
  chat_addr = [];
  chat_port = [];
  web_service_addr = [];
  zm_get_friend_file = [];
  z_credit_file = [];
  sgn_process_file = [];
  guild_recharge_asset_rate = pos 1;
}

-- `notify` stores a value where the file has one.
abbrev pub stored {ℓ} : {A : Type ℓ} → A → Option A → A
stored old none = old
stored old (some v) = v

-- "##"
abbrev pub hashes : Text
hashes = 35 ∷ 35 ∷ []

unfoldable pub notify_db : Parsed → (DbConfig → Db) → DbConfig → Db
notify_db p cfg db = record {
  db_name = stored (cfg db).db_name (p.text_value (opt_db_name db));
  db_user = stored (cfg db).db_user (p.text_value (opt_db_user db));
  db_pass = stored (cfg db).db_pass (p.text_value (opt_db_pass db)) ++ hashes;
  db_server = stored (cfg db).db_server (p.text_value (opt_db_server db));
}

-- The place is a number, as texts are shorter than 2 ^ 31.
-- VInt32 nColonPosition = find_first_of(":"): the place of the first colon, or npos, which is -1 as a VInt32.
unfoldable pub find_colon : Text → ℕ → ℤ
find_colon [] i = negsuc 0
find_colon (c ∷ cs) i = if c == 58 then pos i else find_colon cs (i + 1)

-- substr(0, n): -1 is npos again.
unfoldable pub before : ℤ → Text → Text
before (pos n) text = take n text
before (negsuc n) text = text

-- substr(n + 1)
unfoldable pub behind : ℤ → Text → Text
behind (pos n) text = drop (n + 1) text
behind (negsuc zero) text = text
behind (negsuc (suc n)) text = []

-- for (i = 0; i < nSize; i++): `none` where a cast throws.
unfoldable pub load_lists :
    (Text → Option ℤ) → ℕ → ℕ → List Text → List Text → List ℤ × List ℤ → Option (List ℤ × List ℤ)
load_lists cast zero i delta room (d, r) = some (d, r)
load_lists cast (suc n) i delta room (d, r) = do
  dv ← cast (get_or delta i [])
  rv ← cast (get_or room i [])
  load_lists cast n (i + 1) delta room (set d i dv, set r i rv)

abbrev pub default_log_address : Text
default_log_address = codes "127.0.0.1:6666"

abbrev pub default_address : Text
default_address = codes "10.199.88.5:6065"

-- std::min(std::min(vDelta.size(), vRoomLimit.size()), (size_t)MM_CONFIG_NUM_PLAYERS)
unfoldable pub list_size : List Text → List Text → ℕ
list_size delta room = min (min (length delta) (length room)) num_players

-- What `store` and `notify` do to the members that options name.
unfoldable pub notify : Parsed → Config → Config
unfolding notify_db
notify p c = record c {
  cfg = notify_db p c.cfg;
  max_session = stored c.max_session (p.unsigned_value opt_max_session);
  recycle_session = stored c.recycle_session (p.unsigned_value opt_recycle_session);
  port = stored c.port (p.unsigned_value opt_server_port);
  max_player = stored c.max_player (p.signed_value opt_max_player);
  max_room = stored c.max_room (p.signed_value opt_max_room);
  interval_db_update = stored c.interval_db_update (p.signed_value opt_interval_db_update);
  change_update = stored c.change_update (p.signed_value opt_change_update);
  log_addr = stored default_log_address (p.text_value opt_log_address);
  social_port = stored c.social_port (p.unsigned_value opt_social_port);
  limit_member_in_guild = stored c.limit_member_in_guild (p.signed_value opt_limit_member_in_guild);
  limit_request_join_guild =
      stored c.limit_request_join_guild (p.signed_value opt_limit_request_join_guild);
  match_making_interval = stored c.match_making_interval (p.signed_value opt_match_making_interval);
  zm_get_friend_file = stored c.zm_get_friend_file (p.text_value opt_zm_get_friend_file);
  z_credit_file = stored c.z_credit_file (p.text_value opt_z_credit_file);
  sgn_process_file = stored c.sgn_process_file (p.text_value opt_sgn_process_file);
  guild_recharge_asset_rate =
      stored c.guild_recharge_asset_rate (p.signed_value opt_guild_recharge_asset_rate);
}

-- The colon of the chat address, and the prefix of the web service.
unfoldable pub set_addresses : Text → Text → Config → Config
unfolding find_colon before behind
set_addresses chat web c =
    let colon = find_colon chat 0 in
    record c {
      chat_addr = before colon chat;
      chat_port = behind colon chat;
      web_service_addr = codes "http://" ++ web;
    }

-- The branch of `Start` with a file.
unfoldable pub start_parsed : Environment → Parsed → Config → Option Config
unfolding list_size load_lists notify set_addresses
start_parsed env p c = do
  let delta = env.split (stored [] (p.text_value opt_match_making_delta))
  let room = env.split (stored [] (p.text_value opt_match_making_min_room))
  let c' = notify p c
  (d, r) ←
      load_lists env.cast (list_size delta room) 0 delta room
        (c'.match_making_delta, c'.min_mm_room)
  let chat = stored default_address (p.text_value opt_chat_address)
  let web = stored default_address (p.text_value opt_web_service_address)
  some (set_addresses chat web (record c' { match_making_delta = d; min_mm_room = r }))

-- `Start`; `none` is an exception.
unfoldable pub start_from : Environment → Option (Option Parsed) → Config → Option Config
start_from env none c = some c
start_from env (some none) c = none
start_from env (some (some p)) c = start_parsed env p c

unfoldable pub start : Environment → Config → Option Config
unfolding start_from
start env c = start_from env env.file c
