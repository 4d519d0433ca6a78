-- ===== src/System.antt =====
-- src/VChatLib/VSystemManager.cpp: the start and the stop of the server's parts, and the console.
-- Texts are lists of bytes. `CreateBufferChat` is a parameter.
pub mod Lifecycle
pub mod Console
use model_lib.Common.{
  ℕ, zero, suc, ◌-◌, Bool, true, false, not, ◌&&◌, ◌||◌, Option, none, some, ◌>>=◌, List, [], ◌∷◌,
  ◌++◌, ◌==◌, ltb, leb, if◌then◌else◌, length, get_or, take, drop, replicate,
}
use model_lib.Common.Int.{ℤ}
use model_lib.Config.{Text, Config, DbConfig, Db}

pub data Part : Type 0 where
  xml async_io log social_db database users match_making http zme guild lobby processors network :
      Part

-- What is started with values of the configuration carries them.
pub data Action : Type 0 where
  change_dir : Text → Action
  starts : Part → Action
  starts_log : Text → Action
  starts_social_db : (DbConfig → Db) → ℤ → ℤ → Action
  starts_match_making : ℤ → Action
  starts_http : Text → Text → Action
  starts_lobby : ℕ → Action
  starts_network : ℕ → ℕ → ℕ → Action
  stops : Part → Action
  global_chat : List ℕ → Action  -- `SendGlobalPacket`

-- `VSystemManager::Start`. `VAsyncIo` is made by its first use.
unfoldable pub start : Config → List Action
start cfg =
    starts xml
    ∷ starts async_io
    ∷ starts_log cfg.log_addr
    ∷ starts_social_db cfg.cfg cfg.interval_db_update cfg.change_update
    ∷ starts database
    ∷ starts users
    ∷ starts_match_making cfg.match_making_interval
    ∷ starts_http cfg.chat_addr cfg.chat_port
    ∷ starts zme
    ∷ starts guild
    ∷ starts_lobby cfg.social_port
    ∷ starts processors
    ∷ starts_network cfg.max_session cfg.recycle_session cfg.port
    ∷ []

-- `VSystemManager::Stop`
unfoldable pub stop : List Action
stop =
    stops async_io
    ∷ stops network
    ∷ stops processors
    ∷ stops lobby
    ∷ stops guild
    ∷ stops zme
    ∷ stops http
    ∷ stops match_making
    ∷ stops users
    ∷ stops database
    ∷ stops social_db
    ∷ stops log
    ∷ stops xml
    ∷ []

-- strrchr(pPath, sep): the path up to its last separator, and with it.
unfoldable pub dir_step : ℕ → ℕ → Option Text → Option Text
dir_step sep c none = if c == sep then some (c ∷ []) else none
dir_step sep c (some dir) = some (c ∷ dir)

unfoldable pub dir_of : ℕ → Text → Option Text
unfolding dir_step
dir_of sep [] = none
dir_of sep (c ∷ cs) = dir_step sep c (dir_of sep cs)

abbrev pub path_size : ℕ
path_size = 128

-- strncpy into szPath, and chdir; `none` where the copy leaves no zero in the array or leaves the array.
unfoldable pub enter_dir : Option Text → Option (List Action)
enter_dir none = some []
enter_dir (some dir) = if ltb (length dir) path_size then some (change_dir dir ∷ []) else none

abbrev pub buffer_size : ℕ
buffer_size = 256

-- std::cin.getline(szBuffer, 255) keeps 254 characters; a longer line is an error that ends the loop.
abbrev pub too_long : Text → Bool
too_long line = leb 255 (length line)

-- 'q', 'Q', 's' and 'S'
abbrev pub is_quit : Text → Bool
is_quit line = let c = get_or line 0 0 in c == 113 || c == 81

abbrev pub is_send : Text → Bool
is_send line = let c = get_or line 0 0 in c == 115 || (c == 83 && not (get_or line 1 0 == 0))

-- WriteBuffer(&szBuffer[1], 64), from the buffer that was zeroed before the line was read.
unfoldable pub notice_text : Text → List ℕ
notice_text line = take 64 (drop 1 (line ++ replicate (buffer_size - length line) 0))

unfoldable pub command : List ℕ → Text → List Action
unfolding notice_text
command global_header line =
    if is_send line then global_chat (global_header ++ notice_text line) ∷ [] else []

-- The loop, on the lines of the input up to its end.
unfoldable pub console : List ℕ → List Text → List Action
unfolding command
console global_header [] = []
console global_header (line ∷ lines) =
    let rest = console global_header lines in
    if too_long line || is_quit line then [] else command global_header line ++ rest

-- while (g_bRun) sleep(1): whether SIGTERM came in each second; `none` while it runs on.
unfoldable pub wait_signal : List Bool → Option (List Action)
wait_signal [] = none
wait_signal (true ∷ seconds) = some []
wait_signal (false ∷ seconds) = wait_signal seconds

-- `ChatStart` on Windows, where '\\' separates, and elsewhere, where '/' does.
unfoldable pub chat_start_windows : Config → List ℕ → Text → List Text → Option (List Action)
unfolding enter_dir
chat_start_windows cfg global_header path lines = do
  entered ← enter_dir (dir_of 92 path)
  some (entered ++ start cfg ++ console global_header lines ++ stop)

unfoldable pub chat_start_posix : Config → Text → List Bool → Option (List Action)
unfolding enter_dir
chat_start_posix cfg path seconds = do
  entered ← enter_dir (dir_of 47 path)
  waited ← wait_signal seconds
  some (entered ++ start cfg ++ waited ++ stop)
