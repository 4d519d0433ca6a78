-- ===== src/SimpleBuffer/Joined.antt =====
-- What a buffer holds after its constructor.
use model_lib.Common.{
  ℕ, zero, suc, ◌+◌, ◌-◌, ◌^◌, ◌≤◌, ◌<◌, ◌≡◌, refl, true, none, some, List, ◌++◌, arith, length,
  take, drop, ◌==◌, if◌then◌else◌,
}
use native.Mathlib.Nat.{mod-eq_of_lt, le_refl}
use model_lib.SimpleBuffer.{Buffer, invalid, is_valid, memcpy, new_buffer, new_joined, copy_part}

memcpy-take :
    (room n : ℕ) (src : List ℕ) → n ≤ room → n ≤ length src → memcpy room src n ≡ some (take n src)
unfolding memcpy
memcpy-take room n src fits read = ground arith

-- From one source that is not null and holds the `l` bytes: a copy of them, and the empty buffer for none.
pub new_buffer-copies :
    (src : List ℕ) (l : ℕ)
    → l ≤ length src
    → new_buffer (some src) l
      ≡ some (if l == 0 then invalid else record { data_ = some (take l src); len = l })
unfolding new_buffer
new_buffer-copies src zero read = refl
new_buffer-copies src (suc l) read =
    rw (memcpy-take (suc l) (suc l) src (le_refl _) read) (ground arith)

copy_part-take :
    (room n : ℕ) (src memory : List ℕ)
    → n ≤ room
    → n ≤ length src
    → copy_part room (some src) n memory ≡ some (take n src)
unfolding copy_part
copy_part-take room zero src memory fits read = refl
copy_part-take room (suc n) src memory fits read = memcpy-take room (suc n) src fits read

-- From a header and a body that are not null and hold their bytes, not both empty: the header's bytes and
-- then the body's, whatever the block held before; the buffer is valid.
pub new_joined-appends :
    (data1 data2 memory : List ℕ) (l1 l2 : ℕ)
    → l1 ≤ length data1
    → l2 ≤ length data2
    → 0 < l1 + l2
    → l1 + l2 < 2 ^ 64
    → (b : Buffer) × (new_joined (some data1) l1 (some data2) l2 memory ≡ some b)
      × (b.data_ ≡ some (take l1 data1 ++ take l2 data2))
      × (b.len ≡ l1 + l2)
      × (is_valid b ≡ true)
unfolding new_joined
new_joined-appends data1 data2 memory l1 l2 read1 read2 pos room = (
  record { data_ = some (take l1 data1 ++ take l2 data2); len = l1 + l2 },
  rw
      (
        mod-eq_of_lt {n = l1 + l2} {m = 2 ^ 64} room,
        copy_part-take (l1 + l2) l1 data1 memory (omega arith) read1,
        copy_part-take (l1 + l2 - l1) l2 data2 (drop l1 memory) (omega arith) read2,
      )
      (ground arith),
  refl,
  refl,
  ground arith,
)

-- With a null body only the header's bytes are defined: the rest is what the block held.
new_joined-null_body :
    (data1 memory : List ℕ) (l1 l2 : ℕ)
    → l1 ≤ length data1
    → 0 < l1 + l2
    → l1 + l2 < 2 ^ 64
    → new_joined (some data1) l1 none l2 memory
      ≡ some (record { data_ = some (take l1 data1 ++ take l2 (drop l1 memory)); len = l1 + l2 })
unfolding new_joined
new_joined-null_body data1 memory l1 l2 read1 pos room =
    rw
      (
        mod-eq_of_lt {n = l1 + l2} {m = 2 ^ 64} room,
        copy_part-take (l1 + l2) l1 data1 memory (omega arith) read1,
      )
      (ground arith)
