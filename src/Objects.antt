-- ===== src/Objects.antt =====
-- src/VCommon/VObjectAllocator.h: `ObjectAllocator`, objects placed in blocks of the `AllocateManager`. The
-- constructor and the destructor of `T` are events, in order; `size` is sizeof(T). `none` is a
-- `FindSlot` that does not end.
pub mod Housed
pub mod Counted
use model_lib.Common.{ℕ, zero, suc, Option, some, ◌>>=◌, List, [], ◌∷◌, ◌++◌}
use model_lib.Allocate.{Manager, allocate, deallocate}

-- `T(t1, …, t5)` at an address, with the arguments of one of the overloads, and `~T()`.
pub data Event : Type 0 where
  constructs : ℕ → List ℕ → Event
  destructs : ℕ → Event

pub record Objects : Type 0 where
  pub manager : Manager
  pub trace : List Event

-- if (obj) ::new (obj) T(…)
unfoldable pub construct : ℕ → List ℕ → Objects → Objects × ℕ
construct zero args o = (o, 0)
construct (suc q) args o = (record o { trace = o.trace ++ constructs (suc q) args ∷ [] }, suc q)

-- `Create(…)`
unfoldable pub create : ℕ → List ℕ → Objects → Option (Objects × ℕ)
unfolding construct
create size args o = do
  (m, p) ← allocate size o.manager
  some (construct p args (record o { manager = m }))

-- `Destroy(obj)`: the destructor first.
unfoldable pub destroy : ℕ → ℕ → Objects → Option Objects
destroy size zero o = some o
destroy size (suc q) o = do
  let o' = record o { trace = o.trace ++ destructs (suc q) ∷ [] }
  m ← deallocate (suc q) size o'.manager
  some (record o' { manager = m })

-- `ObjectRefAllocator`: a shared pointer to the object, whose deleter is `Destroy`; boost calls it, also for null, when
-- the last copy of the pointer goes.
unfoldable pub create_shared : ℕ → List ℕ → Objects → Option (Objects × ℕ)
unfolding create
create_shared size args o = create size args o

unfoldable pub delete_shared : ℕ → ℕ → Objects → Option Objects
unfolding destroy
delete_shared size p o = destroy size p o
