-- ===== src/ContainerAlloc.antt =====
-- src/VCommon/VAllocatorHandler.h: `ContainerAlloc`, the allocator of the containers over the `AllocateManager`.
-- `element` is sizeof(_Ty), a `size_t` has 64 bits and a VUInt32 has 32.
pub mod Fits
use model_lib.Common.{ℕ, ◌-◌, ◌*◌, ◌/◌, ◌%◌, ◌^◌, Option, if◌then◌else◌, ltb}
use model_lib.Allocate.{Manager}
use model_lib.Allocate

-- (VUInt32)_Count * sizeof(_Ty)
unfoldable pub bytes : ℕ → ℕ → ℕ
bytes element count = count % 2 ^ 32 * element % 2 ^ 64

unfoldable pub allocate : ℕ → ℕ → Manager → Option (Manager × ℕ)
allocate element count m = Allocate.allocate (bytes element count) m

unfoldable pub deallocate : ℕ → ℕ → ℕ → Manager → Option Manager
deallocate element p count m = Allocate.deallocate p (bytes element count) m

-- (size_t)(-1) / sizeof (_Ty)
unfoldable pub max_size : ℕ → ℕ
max_size element = let count = (2 ^ 64 - 1) / element in if ltb 0 count then count else 1
