-- ===== src/NetWork/Lifetime.antt =====
-- What is left of the sessions when the server stops.
use model_lib.Common.{ℕ, zero, suc, ◌+◌, ◌<◌, ◌≡◌, refl, ap, none, some, List, [], ◌∷◌, ◌++◌, arith}
use model_lib.RingBuffer.{clear, new_sized}
use model_lib.SessionManager.{
  AsyncServer, new_async_server, close_session, clear_session, reset, destroy,
}
use model_lib.SessionManager.Accepting.{Event, events, completed, push-new_sized, accepts_go_on}
use model_lib.NetWork.{
  create_threads, stop_io, join_all, on_session, NetWorkManager, start, stop, stop_from,
  stop_server, drop_server, drop_waiting, thread_count,
}

-- Sessions come and go while the server runs.
abbrev pub with_server : (AsyncServer → AsyncServer) → NetWorkManager → NetWorkManager
with_server f m = elim m.server [ none ↦ m | some a ↦ record m { server = some (f a) } ]

abbrev pub idle : NetWorkManager
idle = record { server = none; actions = [] }

clear-new_sized : (n : ℕ) → clear (new_sized n) ≡ []
unfolding clear new_sized
clear-new_sized n = refl

ending :
    (n s : ℕ) (a : AsyncServer)
    → 0 < s
    → a.accepting ≡ some s
    → a.manager.pool ≡ new_sized n
    → stop_server a ++ drop_server (some a)
      ≡ stop_io ∷ join_all ∷ on_session (reset s) ∷ on_session (destroy s) ∷ []
unfolding stop_server drop_server drop_waiting clear_session close_session
ending n zero a h e pool = absurd (omega arith)
ending n (suc k) a h e pool = simp (e, pool, clear-new_sized n, push-new_sized (suc k) n)

-- After `Start`, any accepts and any sessions that went, `Stop` stops the io_service, joins the threads, of which there
-- was at least one, and destroys the one session that still waits; none is left in the pool. A second `Stop` does
-- nothing.
start-stop :
    (cores recycled next : ℕ) (es : List Event)
    → 0 < next
    → let running = with_server (events es) (start cores recycled next idle) in
      let last = next + completed es in
      (stop running ≡ record {
        server = none;
        actions =
            create_threads (thread_count cores)
            ∷ stop_io
            ∷ join_all
            ∷ on_session (reset last)
            ∷ on_session (destroy last)
            ∷ [];
      })
      × (0 < thread_count cores)
      × (stop (stop running) ≡ stop running)
unfolding start stop stop_from thread_count drop_server
start-stop cores recycled next es h =
    let (waits, _, pool) = accepts_go_on recycled next es h in
    let end = ending recycled (next + completed es) a (omega arith) waits pool in
    (
      ap (λ done. record { server = none; actions = create_threads (thread_count cores) ∷ done })
          end,
      ground arith,
      refl,
    )
  where
    a : AsyncServer
    a = events es (new_async_server recycled next)
