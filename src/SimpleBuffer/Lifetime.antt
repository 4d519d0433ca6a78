-- ===== src/SimpleBuffer/Lifetime.antt =====
-- src/VCommon/VCommonDefines.h: the block of a `VSimpleBuffer`, from the constructors to the destructor, over the
-- `AllocateManager`. What is in the block is SimpleBuffer's.
use model_lib.Common.{
  ℕ, ◌+◌, ◌%◌, ◌^◌, ◌≤◌, ◌<◌, ◌≡◌, ◌≢◌, refl, ◌⊎◌, inl, inr, Bool, true, false, not, ◌&&◌, ◌||◌,
  Option, none, some, ◌>>=◌, List, ltb, ◌==◌, if◌then◌else◌, arith, ==_ne, ◌∙◌,
}
use model_lib.Allocate.{Manager, Heap, Platform, new_manager, allocate, deallocate}
use model_lib.Allocate.Fresh.{HeapInv, Fresh}
use model_lib.Allocate.Returning.{deallocate_others, deallocate_runs}
use model_lib.Allocate.History.{Call, calls, calls-allocate}

-- `data_` and `len_`; 0 is null.
pub record Placed : Type 0 where
  pub address : ℕ
  pub len : ℕ

abbrev pub nowhere : Placed
nowhere = record { address = 0; len = 0 }

-- The allocation of either constructor: of `l` bytes, where the test at its beginning holds. `Allocate` takes a
-- `VUInt32`: the length is cut to 32 bits.
unfoldable pub place_if : Bool → ℕ → Manager → Option (Manager × Placed)
place_if false l m = some (m, nowhere)
place_if true l m = do (m', p) ← allocate (l % 2 ^ 32) m; some (m', record { address = p; len = l })

-- `VSimpleBuffer(data, l)`; the flag is whether the pointer is not null.
unfoldable pub place : Bool → ℕ → Manager → Option (Manager × Placed)
unfolding place_if
place data1 l m = place_if (ltb 0 l && data1) l m

-- `VSimpleBuffer(data1, l1, data2, l2)`
unfoldable pub place_joined : Bool → ℕ → Bool → ℕ → Manager → Option (Manager × Placed)
unfolding place_if
place_joined data1 l1 data2 l2 m =
    let l = (l1 + l2) % 2 ^ 64 in place_if (ltb 0 l && (data1 || data2)) l m

-- `~VSimpleBuffer()`
unfoldable pub remove : Placed → Manager → Option Manager
remove b m =
    let given_back = deallocate b.address (b.len % 2 ^ 32) m in
    if not (b.address == 0) && not (b.len == 0) then given_back else some m

-- The life of a buffer: without a test that holds it has no block and its end does nothing; otherwise it has a new block,
-- not live before and of at least `l` bytes, and its end gives back that block alone, with the size
-- it was asked for, and leaves every other block as it was before the buffer.
abbrev pub Lives : Bool → ℕ → Manager → Option (Manager × Placed) → Type 0
Lives test l m placed =
    ((test ≡ false) × (placed ≡ some (m, nowhere)) × (remove nowhere m ≡ some m))
    ⊎ ((m' : Manager) × (p : ℕ) × (given : ℕ) × (m'' : Manager) × (placed
          ≡ some (m', record { address = p; len = l }))
        × (m.heap.capacity p ≡ none)
        × (m'.heap.capacity p ≡ some given)
        × (l ≤ given)
        × (remove (record { address = p; len = l }) m' ≡ some m'')
        × (deallocate p l m' ≡ some m'')
        × ((q : ℕ) → q ≢ p → m''.heap.capacity q ≡ m.heap.capacity q))

place_if-Lives :
    (test : Bool) (l : ℕ) (m : Manager)
    → (test ≡ true → 0 < l)
    → l ≤ 2 ^ 31
    → Fresh l m
    → Lives test l m (place_if test l m)
unfolding place_if remove
place_if-Lives false l m some_bytes small f = inl (refl, refl, refl)
place_if-Lives true l m some_bytes small f =
    let (m'', back) = deallocate_runs l f.block f.after small in
    let whole : l % 2 ^ 32 ≡ l = omega (arith, small) in
    let address : (f.block == 0) ≡ false = ==_ne f.block 0 f.not_null in
    let size : (l == 0) ≡ false = ==_ne l 0 (λ e. absurd (omega (arith, some_bytes refl))) in
    inr (
      f.after,
      f.block,
      f.given,
      m'',
      rw (whole, f.returns) refl,
      f.was_free,
      f.is_live,
      f.fits,
      rw (address, size, whole) back,
      back,
      λ q ne. deallocate_others l f.block q f.after m'' back ne ∙ f.others q ne,
    )

-- After any history of the `AllocateManager` and for up to 2 ^ 31 bytes in all, a buffer of either constructor has a
-- block that was not live before and is large enough, or none, and its end gives back that block alone,
-- with the size it was asked for.
pub placed-Lives :
    (platform : Platform) (h : Heap) (cs : List Call) (m : Manager) (data1 data2 : Bool) (l1 l2 : ℕ)
    → HeapInv h
    → calls cs (new_manager platform h) ≡ some m
    → l1 + l2 ≤ 2 ^ 31
    → Lives (ltb 0 l1 && data1) l1 m (place data1 l1 m)
      × Lives (ltb 0 (l1 + l2) && (data1 || data2)) (l1 + l2) m (place_joined data1 l1 data2 l2 m)
unfolding place place_joined
placed-Lives platform h cs m data1 data2 l1 l2 v run small = (
  place_if-Lives _ l1 m (λ e. ground (arith, e)) (omega arith)
      (calls-allocate platform h cs m l1 v run (omega arith)),
  rw whole (
      place_if-Lives _ (l1 + l2) m (λ e. ground (arith, e)) small
        (calls-allocate platform h cs m (l1 + l2) v run small)),
)
  where
    whole : (l1 + l2) % 2 ^ 64 ≡ l1 + l2
    whole = omega arith
