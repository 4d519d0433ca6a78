-- ===== src/NetWork.antt =====
-- src/VNetWork/VNetWorkManager.cpp: `VNetWorkManager`, which makes, stops and drops the `async_server`, and `stop` of the
-- latter (src/VNetWork/VAsyncServer.hpp). A server that is dropped takes the accept that is outstanding with
-- it, and so the session that waits.
pub mod Lifetime
use model_lib.Common.{
  ℕ, ◌*◌, Bool, Option, none, some, List, [], ◌∷◌, ◌++◌, ◌==◌, if◌then◌else◌, map,
}
use model_lib.SessionManager.{AsyncServer, Effect, new_async_server, clear_session, close_session}

pub data Action : Type 0 where
  create_threads : ℕ → Action
  stop_io : Action
  join_all : Action
  on_session : Effect → Action

-- `m_Server`, and what was done; `next` is the address of the next new session.
pub record NetWorkManager : Type 0 where
  pub server : Option AsyncServer
  pub actions : List Action

-- hardware_concurrency <= 0 ? 1 : (2 * hardware_concurrency)
unfoldable pub thread_count : ℕ → ℕ
thread_count hardware_concurrency =
    if hardware_concurrency == 0 then 1 else 2 * hardware_concurrency

-- `async_server::stop`
unfoldable pub stop_server : AsyncServer → List Action
stop_server a = stop_io ∷ join_all ∷ map on_session (clear_session a.manager)

-- The destructor of the server.
unfoldable pub drop_waiting : AsyncServer → Option ℕ → List Action
drop_waiting a none = []
drop_waiting a (some s) = map on_session (close_session s a.manager).1

unfoldable pub drop_server : Option AsyncServer → List Action
unfolding drop_waiting
drop_server none = []
drop_server (some a) = drop_waiting a a.accepting

-- `Start`: the new server is made before the one it replaces is dropped.
unfoldable pub start : ℕ → ℕ → ℕ → NetWorkManager → NetWorkManager
unfolding thread_count drop_server
start hardware_concurrency recycled_session next m = record {
  server = some (new_async_server recycled_session next);
  actions = m.actions ++ create_threads (thread_count hardware_concurrency) ∷ drop_server m.server;
}

-- `Stop`
unfoldable pub stop_from : Option AsyncServer → NetWorkManager → NetWorkManager
unfolding stop_server drop_server
stop_from none m = m
stop_from (some a) m = record {
  server = none;
  actions = m.actions ++ stop_server a ++ drop_server (some a);
}

unfoldable pub stop : NetWorkManager → NetWorkManager
unfolding stop_from
stop m = stop_from m.server m
