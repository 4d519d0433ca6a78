-- ===== src/Allocate.antt =====
-- src/VCommon/VAllocatorHandler.h: `AllocateManager`, the pools of blocks by size class. `malloc` and `free`
-- are a heap that names each new block by the next number and never runs out of memory.
pub mod Slots
pub mod Fresh
pub mod Returning
pub mod History
use model_lib.Common.{
  ℕ, zero, suc, ◌+◌, ◌/◌, ◌^◌, Bool, true, false, Option, none, some, ◌>>=◌, List, [], ◌∷◌, map,
  ◌==◌, ltb, if◌then◌else◌, get_or, set, replicate,
}
use model_lib.RingBuffer.{RingBuffer, new_buffer, resize, push, pop, clear}

-- The size of each live block. Address 0 is null.
pub record Heap : Type 0 where
  pub capacity : ℕ → Option ℕ
  pub next : ℕ

abbrev pub update {ℓ} : {A : Type ℓ} → (ℕ → A) → ℕ → A → ℕ → A
update f p v q = if p == q then v else f q

unfoldable pub malloc : ℕ → Heap → Heap × ℕ
malloc size h =
    (record h { capacity = update h.capacity h.next (some size); next = suc h.next }, h.next)

unfoldable pub free : ℕ → Heap → Heap
free p h = record h { capacity = update h.capacity p none }

-- `max_thread` and DEFAULT_SIZE_POOL, by platform.
pub record Platform : Type 0 where
  pub max_thread : ℕ
  pub default_size_pool : ℕ

abbrev pub win32 : Platform
win32 = record { max_thread = 4; default_size_pool = 1000 }

abbrev pub posix : Platform
posix = record { max_thread = 8; default_size_pool = 32000 }

abbrev pub max_slot : ℕ
max_slot = 16

-- `m_Container[slot][i]`
pub record Manager : Type 0 where
  pub container : List (List RingBuffer)
  pub heap : Heap

unfoldable pub new_manager : Platform → Heap → Manager
unfolding new_buffer
new_manager platform heap = record {
  container = replicate max_slot (replicate platform.max_thread new_buffer);
  heap = heap;
}

-- while (VUInt32(1 << slot) < nSize) ++slot; `none` where the shift count reaches the width of the word.
unfoldable pub find_slot_from : ℕ → ℕ → ℕ → Option ℕ
find_slot_from zero slot size = none
find_slot_from (suc fuel) slot size =
    let rest = find_slot_from fuel (slot + 1) size in
    if ltb (2 ^ slot) size then rest else some slot

unfoldable pub find_slot : ℕ → Option ℕ
unfolding find_slot_from
find_slot size = find_slot_from 32 0 size

-- for (i …) if (pointer = m_Container[nSlot][i].pop()) break;
unfoldable pub pop_row : List RingBuffer → List RingBuffer × ℕ
pop_row [] = ([], 0)
pop_row (b ∷ bs) =
    let (b', t) = pop b in
    let (bs', t') = pop_row bs in if t == 0 then (b' ∷ bs', t') else (b' ∷ bs, t)

-- for (i …) if (m_Container[nSlot][i].push(pointer)) return;
unfoldable pub push_row : ℕ → List RingBuffer → List RingBuffer × Bool
push_row t [] = ([], false)
push_row t (b ∷ bs) =
    let (b', done) = push t b in
    let (bs', done') = push_row t bs in if done then (b' ∷ bs, true) else (b' ∷ bs', done')

abbrev pub row : Manager → ℕ → List RingBuffer
row m slot = get_or m.container slot []

abbrev pub with_row : ℕ → List RingBuffer → Manager → Manager
with_row slot bs m = record m { container = set m.container slot bs }

abbrev pub with_malloc : ℕ → Manager → Manager × ℕ
with_malloc size m = let (h, p) = malloc size m.heap in (record m { heap = h }, p)

unfoldable pub allocate : ℕ → Manager → Option (Manager × ℕ)
allocate size m = do
  slot ← find_slot size
  let (bs, t) = pop_row (row m slot)
  let m' = with_row slot bs m
  some (
      if ltb slot max_slot
      then (if t == 0 then with_malloc (2 ^ slot) m' else (m', t))
      else with_malloc size m)

-- The bytes that a block of `allocate` has room for.
unfoldable pub block_size : ℕ → Option ℕ
unfolding find_slot
block_size size = do slot ← find_slot size; some (if ltb slot max_slot then 2 ^ slot else size)

unfoldable pub deallocate : ℕ → ℕ → Manager → Option Manager
deallocate zero size m = some m
deallocate (suc q) size m = do
  let p = suc q
  slot ← find_slot size
  let (bs, done) = push_row p (row m slot)
  let m' = with_row slot bs m
  some (
      if ltb slot max_slot
      then (if done then m' else record m' { heap = free p m.heap })
      else record m { heap = free p m.heap })

unfoldable pub start : Platform → Manager → Manager
unfolding resize
start platform m = record m {
  container = map (map (resize (platform.default_size_pool / platform.max_thread))) m.container;
}

-- The pointers that `clear` hands to `free`, in order.
unfoldable pub free_all : List ℕ → Heap → Heap
free_all [] h = h
free_all (p ∷ ps) h = free_all ps (free p h)

unfoldable pub stop_row : List RingBuffer → Heap → Heap
stop_row [] h = h
stop_row (b ∷ bs) h = stop_row bs (free_all (clear b) h)

unfoldable pub stop_rows : List (List RingBuffer) → Heap → Heap
stop_rows [] h = h
stop_rows (bs ∷ rows) h = stop_rows rows (stop_row bs h)

unfoldable pub stop : Manager → Manager
stop m = record m { heap = stop_rows m.container m.heap }
