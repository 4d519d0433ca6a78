-- ===== src/Allocate/History.antt =====
-- Histories of calls of the `AllocateManager`, one after another.
use model_lib.Common.{
  ℕ, zero, suc, ◌^◌, ◌≤◌, ◌≡◌, refl, inl, inr, Option, none, some, ◌>>=◌, List, [], ◌∷◌, All,
  All-get_or, All-set, All-replicate, All-map, set, Bool-cases, Option-cases, ltb,
}
use model_lib.RingBuffer.{new_buffer}
use model_lib.Allocate.{
  Manager, Heap, Platform, new_manager, free, find_slot, push_row, row, allocate, deallocate, start,
  stop, max_slot,
}
use model_lib.Allocate.Slots.{find_slot-least}
use model_lib.Allocate.Fresh.{
  IsDry, DryRow, HeapInv, Inv, Fresh, push_row-DryRow, resize-IsDry, malloc-HeapInv, free-HeapInv,
  stop_rows-HeapInv, allocate-malloc, allocate-Fresh,
}

pub data Call : Type 0 where
  allocates : (size : ℕ) → Call
  deallocates : (p size : ℕ) → Call
  starts : Platform → Call
  stops : Call

-- A call of `FindSlot` that does not end stops the program: `none`.
abbrev pub call : Call → Manager → Option Manager
call (allocates size) m = allocate size m >>= λ r. some r.0
call (deallocates p size) m = deallocate p size m
call (starts platform) m = some (start platform m)
call stops m = some (stop m)

abbrev pub calls : List Call → Manager → Option Manager
calls [] m = some m
calls (c ∷ cs) m = call c m >>= calls cs

start-Inv : (platform : Platform) (m : Manager) → Inv m → Inv (start platform m)
unfolding start
start-Inv platform m v = record {
  dry = All-map DryRow DryRow _ (All-map IsDry IsDry _ (resize-IsDry _)) m.container v.dry;
  heap = v.heap;
}

stop-Inv : (m : Manager) → Inv m → Inv (stop m)
unfolding stop
stop-Inv m v = record { dry = v.dry; heap = stop_rows-HeapInv m.container m.heap v.heap }

-- Where an operation returns it keeps the invariant.
abbrev pub Keeps : Option Manager → Type 0
Keeps none = Unit {0}
Keeps (some m) = Inv m

pub allocate-Keeps : (size : ℕ) (m : Manager) → Inv m → Keeps (call (allocates size) m)
unfolding allocate
allocate-Keeps size m v = elim (find_slot-least size) [
  | inr (_, e) ↦ rw (e, allocate) tt
  | inl (_, (slot, e, fits, _)) ↦
      let (given, _, run) = allocate-malloc size slot m v.dry e fits in
      rw run (record { dry = v.dry; heap = malloc-HeapInv given m.heap v.heap })
]

pub deallocate-Keeps : (p size : ℕ) (m : Manager) → Inv m → Keeps (deallocate p size m)
unfolding deallocate
deallocate-Keeps zero size m v = v
deallocate-Keeps (suc q) size m v = elim (Option-cases (find_slot size)) [
  | inl e ↦ rw e tt
  | inr (slot, e) ↦ rw e (elim (Bool-cases (ltb slot max_slot)) [
    | inl low ↦ rw low (elim (Bool-cases (push_row (suc q) (row m slot)).1) [
      | inl done ↦ rw done (record { dry = pushed slot; heap = v.heap })
      | inr full ↦ rw full (record { dry = pushed slot; heap = freed })
    ])
    | inr high ↦ rw high (record { dry = v.dry; heap = freed })
  ])
]
  where
    pushed : (slot : ℕ) → All DryRow (set m.container slot (push_row (suc q) (row m slot)).0)
    pushed slot =
        All-set DryRow m.container slot _
          (push_row-DryRow (suc q) (row m slot) (All-get_or DryRow m.container slot [] tt v.dry))
          v.dry

    freed : HeapInv (free (suc q) m.heap)
    freed = free-HeapInv (suc q) m.heap v.heap

Keeps-bind :
    (r : Option Manager) (f : Manager → Option Manager)
    → Keeps r
    → ((m : Manager) → Inv m → Keeps (f m))
    → Keeps (r >>= f)
Keeps-bind none f k h = tt
Keeps-bind (some m) f k h = h m k

call-Keeps : (c : Call) (m : Manager) → Inv m → Keeps (call c m)
call-Keeps (allocates size) m v = allocate-Keeps size m v
call-Keeps (deallocates p size) m v = deallocate-Keeps p size m v
call-Keeps (starts platform) m v = start-Inv platform m v
call-Keeps stops m v = stop-Inv m v

calls-Keeps : (cs : List Call) (m : Manager) → Inv m → Keeps (calls cs m)
calls-Keeps [] m v = v
calls-Keeps (c ∷ cs) m v = Keeps-bind (call c m) (calls cs) (call-Keeps c m v) (calls-Keeps cs)

pub new_manager-Inv : (platform : Platform) (h : Heap) → HeapInv h → Inv (new_manager platform h)
unfolding new_manager new_buffer
new_manager-Inv platform h v = record {
  dry = All-replicate DryRow max_slot _ (All-replicate IsDry platform.max_thread _ (inr refl));
  heap = v;
}

-- After any history from the constructed manager on, `Allocate` of a size up to 2 ^ 31 gives a block that
-- `malloc` has just made: not null, not live before, at least as large as asked for. It never gives a
-- pointer that `DeAllocate` put into a pool, so it never gives one block to two owners, and no block that
-- `Stop` has freed.
pub calls-allocate :
    (platform : Platform) (h : Heap) (cs : List Call) (m : Manager) (size : ℕ)
    → HeapInv h
    → calls cs (new_manager platform h) ≡ some m
    → size ≤ 2 ^ 31
    → Fresh size m
calls-allocate platform h cs m size v run small = allocate-Fresh size m small inv
  where
    inv : Inv m
    inv = rw run at (calls-Keeps cs (new_manager platform h) (new_manager-Inv platform h v))
