-- ===== src/System/Lifecycle.antt =====
-- The order in which the parts of the server run.
use model_lib.Common.{
  ℕ, Bool, true, false, ◌&&◌, Option, none, some, ◌>>=◌, List, [], ◌∷◌, ◌==◌, if◌then◌else◌, length,
}
use model_lib.Config.{Config}
use model_lib.System.{
  Part, xml, async_io, log, social_db, database, users, match_making, http, zme, guild, lobby,
  processors, network, Action, change_dir, starts, starts_log, starts_social_db,
  starts_match_making, starts_http, starts_lobby, starts_network, stops, global_chat,
}

number : Part → ℕ
number xml = 0
number async_io = 1
number log = 2
number social_db = 3
number database = 4
number users = 5
number match_making = 6
number http = 7
number zme = 8
number guild = 9
number lobby = 10
number processors = 11
number network = 12

-- Whether `VAsyncIo` runs, and the other parts that do, the last started first.
abbrev pub Running : Type 0
Running = Bool × List Part

abbrev pub idle : Running
idle = (false, [])

up : Part → Running → Option Running
up async_io (io, ps) = if io then none else some (true, ps)
up p (io, ps) = some (io, p ∷ ps)

-- Only the part that was started last may stop, and `VAsyncIo` only where it runs.
down : Part → Running → Option Running
down async_io (io, ps) = if io then some (false, ps) else none
down p (io, []) = none
down p (io, q ∷ ps) = if number p == number q then some (io, ps) else none

-- How the running parts change; `none` is a second `VAsyncIo`, a part that stops out of order, a directory that is
-- changed while parts run, or a notice sent while not all run.
unfoldable pub trace : Running → Action → Option Running
unfolding number up down
trace (false, []) (change_dir dir) = some (false, [])
trace (true, []) (change_dir dir) = none
trace (io, p ∷ ps) (change_dir dir) = none
trace r (starts p) = up p r
trace r (starts_log addr) = up log r
trace r (starts_social_db cfg interval change) = up social_db r
trace r (starts_match_making interval) = up match_making r
trace r (starts_http addr port) = up http r
trace r (starts_lobby port) = up lobby r
trace r (starts_network sessions recycled port) = up network r
trace r (stops p) = down p r
trace (io, ps) (global_chat bytes) = if io && (length ps == 12) then some (io, ps) else none

abbrev pub traces : Running → List Action → Option Running
traces r [] = some r
traces r (a ∷ as') = trace r a >>= λ r'. traces r' as'

all_running : Running
all_running = (
  true,
  network ∷ processors ∷ lobby ∷ guild ∷ zme ∷ http ∷ match_making ∷ users ∷ database ∷ social_db
      ∷ log ∷ xml ∷ [],
)
