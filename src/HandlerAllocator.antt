-- ===== src/HandlerAllocator.antt =====
-- src/VNetWork/VAsyncServer.hpp: `handler_allocator`, one block of storage for the handlers of a session, and the
-- `AllocateManager` behind it. `storage` is the address of the block.
pub mod Exclusive
use model_lib.Common.{ℕ, Bool, true, false, not, Option, none, some, ltb, ◌==◌, ◌&&◌, if◌then◌else◌}

abbrev pub storage_size : ℕ
storage_size = 1024

-- `in_use_` and the address that is given; `pool` is what the `AllocateManager` would give.
unfoldable pub allocate : ℕ → ℕ → ℕ → Bool → Bool × ℕ
allocate storage pool size in_use =
    if not in_use && ltb size storage_size then (true, storage) else (in_use, pool)

-- `in_use_`, and what is given back to the `AllocateManager`.
unfoldable pub deallocate : ℕ → ℕ → Bool → Bool × Option ℕ
deallocate storage pointer in_use =
    if pointer == storage then (false, none) else (in_use, some pointer)
