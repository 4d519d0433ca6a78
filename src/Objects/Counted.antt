-- ===== src/Objects/Counted.antt =====
-- src/VCommon/VObjectAllocator.h: `ObjectIntrusivePtrAllocator`, and the two functions by which boost's
-- `intrusive_ptr` counts. `AddRef` and `DecreaseRef` are methods of the object, which are not in the
-- repository: an interface.
use model_lib.Common.{ℕ, zero, suc, Bool, true, false, Option, some, ◌>>=◌, List}
use model_lib.Objects.{Objects, create, destroy}

-- `DecreaseRef` tells whether the last reference is gone.
pub record Methods (S : Type 0) : Type 0 where
  pub add_ref : S → S
  pub decrease_ref : S → S × Bool

-- The object at the address the pointers have, and all objects.
pub record Counted (S : Type 0) : Type 0 where
  pub object : S
  pub objects : Objects

module _ {S : Type 0} (t : Methods S) (size p : ℕ) where
  -- intrusive_ptr_add_ref
  unfoldable pub intrusive_ptr_add_ref : Counted S → Counted S
  intrusive_ptr_add_ref c = record c { object = t.add_ref c.object }

  -- if (expr->DecreaseRef()) …::Destroy(expr)
  unfoldable pub released : S → Bool → Objects → Option (Counted S)
  released s false o = some (record { object = s; objects = o })
  released s true o = do o' ← destroy size p o; some (record { object = s; objects = o' })

  unfoldable pub intrusive_ptr_release : Counted S → Option (Counted S)
  unfolding released
  intrusive_ptr_release c = let (s, last) = t.decrease_ref c.object in released s last c.objects

-- `Create(…)`: the pointer counts itself, unless it is null. `new_object` is what the constructor of `T` leaves.
unfoldable pub counted : {S : Type 0} → Methods S → S → Objects → ℕ → Counted S
unfolding intrusive_ptr_add_ref
counted t new_object o zero = record { object = new_object; objects = o }
counted t new_object o (suc q) =
    intrusive_ptr_add_ref t 0 (suc q) (record { object = new_object; objects = o })

unfoldable pub create_ref :
    {S : Type 0} → Methods S → S → ℕ → List ℕ → Objects → Option (Counted S × ℕ)
unfolding counted
create_ref t new_object size args o = do
  (o', p) ← create size args o
  some (counted t new_object o' p, p)
