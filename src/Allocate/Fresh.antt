-- ===== src/Allocate/Fresh.antt =====
-- What `AllocateManager` hands out, over any history of its operations one after another.
use native.Mathlib.Nat.{le_refl}
use model_lib.Common.{
  ℕ, ◌^◌, ◌≤◌, ◌<◌, ◌≡◌, ◌≢◌, refl, ◌⊎◌, inl, inr, false, none, some, List, [], ◌∷◌, All,
  All-get_or, set-get_or_self, arith, Bool-cases, ltb,
}
use model_lib.Common.Int.{dec, is_zero, inc-dec}
use model_lib.RingBuffer.{RingBuffer, resize, push, pop}
use model_lib.Allocate.{
  Manager, Heap, malloc, free, find_slot, pop_row, push_row, row, allocate, stop_row, stop_rows,
  free_all, max_slot,
}
use model_lib.Allocate.Slots.{find_slot-least}

-- A buffer from which no pop takes anything: its guard is shut or it is empty.
abbrev pub IsDry : RingBuffer → Type 0
IsDry b = (is_zero (dec b.signal) ≡ false) ⊎ (b.cur ≡ 0)

abbrev pub DryRow : List RingBuffer → Type 0
DryRow = All IsDry

pop-IsDry : (b : RingBuffer) → IsDry b → pop b ≡ (b, 0)
unfolding pop
pop-IsDry b h = ground (arith, inc-dec b.signal)

push-IsDry : (t : ℕ) (b : RingBuffer) → IsDry b → IsDry (push t b).0
unfolding push
push-IsDry t b h = ground (arith, inc-dec b.signal)

pub resize-IsDry : (n : ℕ) (b : RingBuffer) → IsDry b → IsDry (resize n b)
unfolding resize
resize-IsDry n b h = ground arith

pop_row-DryRow : (bs : List RingBuffer) → DryRow bs → pop_row bs ≡ (bs, 0)
unfolding pop_row
pop_row-DryRow [] h = refl
pop_row-DryRow (b ∷ bs) h = rw (pop-IsDry b h.0, pop_row-DryRow bs h.1)

pub push_row-DryRow : (t : ℕ) (bs : List RingBuffer) → DryRow bs → DryRow (push_row t bs).0
unfolding push_row
push_row-DryRow t [] h = tt
push_row-DryRow t (b ∷ bs) h = elim (Bool-cases (push t b).1) [
  | inl e ↦ rw e (push-IsDry t b h.0, h.1)
  | inr e ↦ rw e (push-IsDry t b h.0, push_row-DryRow t bs h.1)
]

-- No block at or past `next`, which is not null.
pub record HeapInv (h : Heap) : Type 0 where
  pub positive : 0 < h.next
  pub above : (p : ℕ) → h.next ≤ p → h.capacity p ≡ none

pub record Inv (m : Manager) : Type 0 where
  pub dry : All DryRow m.container
  pub heap : HeapInv m.heap

pub malloc-HeapInv : (size : ℕ) (h : Heap) → HeapInv h → HeapInv (malloc size h).0
unfolding malloc
malloc-HeapInv size h v = record {
  positive = omega arith;
  above = λ p le. ground (arith, v.above p);
}

pub free-HeapInv : (p : ℕ) (h : Heap) → HeapInv h → HeapInv (free p h)
unfolding free
free-HeapInv p h v = record { positive = v.positive; above = λ q le. ground (arith, v.above q) }

free_all-HeapInv : (ps : List ℕ) (h : Heap) → HeapInv h → HeapInv (free_all ps h)
unfolding free_all
free_all-HeapInv [] h v = v
free_all-HeapInv (p ∷ ps) h v = free_all-HeapInv ps (free p h) (free-HeapInv p h v)

stop_row-HeapInv : (bs : List RingBuffer) (h : Heap) → HeapInv h → HeapInv (stop_row bs h)
unfolding stop_row
stop_row-HeapInv [] h v = v
stop_row-HeapInv (b ∷ bs) h v = stop_row-HeapInv bs _ (free_all-HeapInv _ h v)

pub stop_rows-HeapInv :
    (rows : List (List RingBuffer)) (h : Heap) → HeapInv h → HeapInv (stop_rows rows h)
unfolding stop_rows
stop_rows-HeapInv [] h v = v
stop_rows-HeapInv (bs ∷ rows) h v = stop_rows-HeapInv rows _ (stop_row-HeapInv bs h v)

-- What `Allocate` does for a size that has a class: a new block of at least the size asked for, that was
-- not live before; nothing else on the heap or in the pools changes.
pub record Fresh (size : ℕ) (m : Manager) : Type 0 where
  pub block : ℕ
  pub after : Manager
  pub given : ℕ
  pub returns : allocate size m ≡ some (after, block)
  pub not_null : block ≢ 0
  pub was_free : m.heap.capacity block ≡ none
  pub is_live : after.heap.capacity block ≡ some given
  pub fits : size ≤ given
  pub others : (q : ℕ) → q ≢ block → after.heap.capacity q ≡ m.heap.capacity q
  pub pools : after.container ≡ m.container

-- Dry pools leave `Allocate` nothing but `malloc`, of the class's size or of the size itself.
pub allocate-malloc :
    (size slot : ℕ) (m : Manager)
    → All DryRow m.container
    → find_slot size ≡ some slot
    → size ≤ 2 ^ slot
    → (given : ℕ) × (size ≤ given)
      × (allocate size m ≡ some (record m { heap = (malloc given m.heap).0 }, m.heap.next))
unfolding allocate malloc
allocate-malloc size slot m dry e fits = elim (Bool-cases (ltb slot max_slot)) [
  | inl low ↦
      (2 ^ slot, fits, rw (e, untouched) (rw low (rw (set-get_or_self m.container slot []))))
  | inr high ↦ (size, le_refl size, rw (e, untouched) (rw high))
]
  where
    untouched : pop_row (row m slot) ≡ (row m slot, 0)
    untouched = pop_row-DryRow (row m slot) (All-get_or DryRow m.container slot [] tt dry)

new_block :
    (size given : ℕ) (m : Manager)
    → HeapInv m.heap
    → size ≤ given
    → allocate size m ≡ some (record m { heap = (malloc given m.heap).0 }, m.heap.next)
    → Fresh size m
unfolding malloc
new_block size given m v fits run = record {
  block = m.heap.next;
  after = record m { heap = (malloc given m.heap).0 };
  given = given;
  returns = run;
  not_null = omega (arith, v.positive);
  was_free = v.above m.heap.next (le_refl _);
  is_live = ground arith;
  fits = fits;
  others = λ q ne. ground arith;
  pools = refl;
}

pub allocate-Fresh : (size : ℕ) (m : Manager) → size ≤ 2 ^ 31 → Inv m → Fresh size m
allocate-Fresh size m small v = elim (find_slot-least size) [
  | inr (big, _) ↦ absurd (omega arith)
  | inl (_, (slot, e, fits, _)) ↦
      let (given, large, run) = allocate-malloc size slot m v.dry e fits in
      new_block size given m v.heap large run
]
