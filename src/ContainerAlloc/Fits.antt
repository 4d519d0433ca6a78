-- ===== src/ContainerAlloc/Fits.antt =====
-- Whether the blocks of `ContainerAlloc` hold the elements that the container asks for.
use native.Mathlib.Nat.{mod-eq_of_lt, mul-le-mul, le-div_iff_mul-le}
use model_lib.Common.{ℕ, ◌+◌, ◌-◌, ◌*◌, ◌/◌, ◌%◌, ◌^◌, ◌≤◌, ◌<◌, ◌≡◌, refl, none, some, List, arith}
use model_lib.Allocate.{Manager, Heap, Platform, new_manager}
use model_lib.Allocate.Fresh.{HeapInv}
use model_lib.Allocate.History.{Call, calls, calls-allocate}
use model_lib.ContainerAlloc.{bytes, allocate, deallocate, max_size}

bytes-small :
    (element count : ℕ)
    → count < 2 ^ 32
    → count * element ≤ 2 ^ 31
    → bytes element count ≡ count * element
unfolding bytes
bytes-small element count low fits = rw (mod-eq_of_lt low) (mod-eq_of_lt (omega arith))

-- After any history of the `AllocateManager`, for a count below 2 ^ 32 of elements that take 2 ^ 31
-- bytes at most together: the block is new, was not live before and holds all of them.
allocate-fits :
    (platform : Platform) (h : Heap) (cs : List Call) (m : Manager) (element count : ℕ)
    → HeapInv h
    → calls cs (new_manager platform h) ≡ some m
    → count < 2 ^ 32
    → count * element ≤ 2 ^ 31
    → (m' : Manager) × (p : ℕ) × (given : ℕ) × (allocate element count m ≡ some (m', p))
      × (m.heap.capacity p ≡ none)
      × (m'.heap.capacity p ≡ some given)
      × (count * element ≤ given)
unfolding allocate
allocate-fits platform h cs m element count v run low fits =
    let e = bytes-small element count low fits in
    let f = calls-allocate platform h cs m (count * element) v run fits in
    (f.after, f.block, f.given, rw e f.returns, f.was_free, f.is_live, f.fits)

-- A count of 2 ^ 32 + k is cut to k, although `max_size` allows it: the container is given the block
-- of k elements.
allocate-cut :
    (element k : ℕ) (m : Manager)
    → 0 < element
    → element ≤ 2 ^ 31
    → k < 2 ^ 32 - 1
    → (2 ^ 32 + k ≤ max_size element)
      × (allocate element (2 ^ 32 + k) m ≡ allocate element k m)
      × ((p : ℕ) → deallocate element p (2 ^ 32 + k) m ≡ deallocate element p k m)
unfolding allocate deallocate max_size bytes
allocate-cut element k m some_size small low = (allowed, rw cut refl, λ p. rw cut refl)
  where
    product : (2 ^ 32 + k) * element ≤ 2 ^ 64 - 1
    product =
        omega
          (arith, mul-le-mul {n₁ = 2 ^ 32 + k} {n₂ = 2 ^ 33 - 1} {m₂ = 2 ^ 31} (omega arith) small)

    allowed : 2 ^ 32 + k ≤ max_size element
    allowed =
        let within : 2 ^ 32 + k ≤ (2 ^ 64 - 1) / element =
          (le-div_iff_mul-le some_size).1 product in
        ground (arith, within)

    cut : (2 ^ 32 + k) % 2 ^ 32 ≡ k % 2 ^ 32
    cut = omega arith
