-- ===== src/SessionManager.antt =====
-- src/VNetWork/VAsyncServer.hpp: `session_manager` and the accept loop of `async_server`. A session is named by its
-- address, 0 is null; a new one has the next address. A session is closed when its last reference goes.
pub mod Accepting
use model_lib.Common.{
  ℕ, zero, suc, Bool, true, false, Option, none, some, List, [], ◌∷◌, ◌++◌, if◌then◌else◌, ◌==◌,
  map,
}
use model_lib.RingBuffer.{RingBuffer, new_sized, push, pop, clear}

-- What is done to a session.
pub data Effect : Type 0 where
  reset : ℕ → Effect
  close_socket : ℕ → Effect
  destroy : ℕ → Effect
  start : ℕ → Effect

-- `pool_session_`, and the next address of the allocator.
pub record SessionManager : Type 0 where
  pub pool : RingBuffer
  pub next : ℕ

unfoldable pub new_session_manager : ℕ → ℕ → SessionManager
unfolding new_sized
new_session_manager recycle_session next = record { pool = new_sized recycle_session; next = next }

-- `create_session_ptr`
unfoldable pub create_session_ptr : SessionManager → SessionManager × ℕ
create_session_ptr m =
    let (b, s) = pop m.pool in
    if s == 0 then (record { pool = b; next = suc m.next }, m.next) else (record m { pool = b }, s)

-- `close_session(session)`
unfoldable pub close_session : ℕ → SessionManager → SessionManager × List Effect
close_session zero m = (m, [])
close_session (suc n) m =
    let s = suc n in
    let (b, kept) = push s m.pool in
    (record m { pool = b }, reset s ∷ (if kept then close_socket s else destroy s) ∷ [])

-- `clear_session`, once the threads have been joined.
unfoldable pub clear_session : SessionManager → List Effect
unfolding clear
clear_session m = map destroy (clear m.pool)

-- The server: the session that `async_accept` waits with, and what was done so far.
pub record AsyncServer : Type 0 where
  pub manager : SessionManager
  pub accepting : Option ℕ
  pub effects : List Effect

unfoldable pub start_accept : AsyncServer → AsyncServer
unfolding create_session_ptr
start_accept a =
    let (m, s) = create_session_ptr a.manager in
    if s == 0
    then record a { manager = m; accepting = none }
    else record a { manager = m; accepting = some s }

-- `handle_accept(new_session, error)`. A session that was not started has no other reference.
unfoldable pub handle_accept : Bool → ℕ → AsyncServer → AsyncServer
unfolding start_accept close_session
handle_accept false s a = start_accept (record a { effects = a.effects ++ start s ∷ [] })
handle_accept true s a =
    let b = start_accept (record a { effects = a.effects ++ close_socket s ∷ [] }) in
    let (m, es) = close_session s b.manager in record b { manager = m; effects = b.effects ++ es }

-- The completion of the accept that is outstanding; `true` is an error.
unfoldable pub accept : Bool → AsyncServer → AsyncServer
unfolding handle_accept
accept error a = elim a.accepting [ none ↦ a | some s ↦ handle_accept error s a ]

-- `async_server(…)`, up to its threads.
unfoldable pub new_async_server : ℕ → ℕ → AsyncServer
unfolding new_session_manager start_accept
new_async_server recycle_session next =
    start_accept (record {
      manager = new_session_manager recycle_session next;
      accepting = none;
      effects = [];
    })
