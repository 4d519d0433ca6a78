-- ===== src/Examples/Server.antt =====
-- src/VNetWork/VAsyncServer.hpp: the accept loop and the storage of handlers on short runs.
use model_lib.Common.{◌+◌, ◌≤◌, ◌≡◌, true, false, some, [], ◌∷◌, arith}
use model_lib.RingBuffer.{new_sized}
use model_lib.HandlerAllocator
use model_lib.HandlerAllocator.Exclusive.{
  Reach, first, next, alloc, dealloc, times, storage_exclusive,
}
use model_lib.SessionManager.{new_async_server}
use model_lib.SessionManager.Accepting.{
  accepted, dropped, events, completed, outcome, accepts_go_on,
}

accepts_go_on_example :
    ((events (accepted false ∷ accepted true ∷ dropped 1 ∷ []) (new_async_server 1000 1)).accepting
      ≡ some (1 + completed (accepted false ∷ accepted true ∷ dropped 1 ∷ [])))
    × ((events (accepted false ∷ accepted true ∷ dropped 1 ∷ []) (new_async_server 1000 1)).effects
        ≡ outcome 1 (accepted false ∷ accepted true ∷ dropped 1 ∷ []))
    × ((events
          (accepted false ∷ accepted true ∷ dropped 1 ∷ [])
          (new_async_server 1000 1)).manager.pool
        ≡ new_sized 1000)
accepts_go_on_example =
    accepts_go_on 1000 1 (accepted false ∷ accepted true ∷ dropped 1 ∷ []) (omega arith)

-- A handler of 100 bytes has the storage at address 5, a second one of 50 has a block at 9, and the first goes.
first_in : Reach 5 (record { in_use = true; out = 5 ∷ [] })
unfolding HandlerAllocator.allocate
first_in = next first (alloc 100 8 (λ e. omega (arith, e)))

second_in : Reach 5 (record { in_use = true; out = 9 ∷ 5 ∷ [] })
unfolding HandlerAllocator.allocate
second_in = next first_in (alloc 50 9 (λ e. omega (arith, e)))

first_out : Reach 5 (record { in_use = false; out = 9 ∷ [] })
unfolding HandlerAllocator.deallocate
first_out = next second_in (dealloc 5 (omega arith))

storage_exclusive_example :
    (times 5 (9 ∷ 5 ∷ []) ≤ 1)
    × (true ≡ true → times 5 (9 ∷ 5 ∷ []) ≡ 1)
    × (true ≡ false → times 5 (9 ∷ 5 ∷ []) ≡ 0)
storage_exclusive_example = storage_exclusive 5 second_in
