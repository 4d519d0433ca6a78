-- ===== src/SimpleBuffer.antt =====
-- src/VCommon/VCommonDefines.h: `VSimpleBuffer`, a block of bytes copied from one place or joined from two.
pub mod Joined
pub mod Lifetime
use model_lib.Common.{
  ℕ, zero, suc, ◌+◌, ◌-◌, ◌^◌, ◌%◌, Bool, true, false, Option, none, some, ◌>>=◌, List, [], ◌∷◌,
  ◌++◌, ltb, leb, ◌==◌, ◌&&◌, ◌||◌, not, if◌then◌else◌, length, take, drop,
}

-- `data_` and `len_`; the null pointer is `none`.
pub record Buffer : Type 0 where
  pub data_ : Option (List ℕ)
  pub len : ℕ

abbrev pub invalid : Buffer
invalid = record { data_ = none; len = 0 }

-- memcpy(dst, src, n) from the start of `src`, where `room` bytes are left; `none` is a read or a write
-- out of bounds.
unfoldable pub memcpy : ℕ → List ℕ → ℕ → Option (List ℕ)
memcpy room src n = if leb n room && leb n (length src) then some (take n src) else none

-- `VSimpleBuffer(data, l)`
unfoldable pub new_buffer : Option (List ℕ) → ℕ → Option Buffer
unfolding memcpy
new_buffer none l = some invalid
new_buffer (some src) zero = some invalid
new_buffer (some src) (suc l) = do
  bytes ← memcpy (suc l) src (suc l)
  some (record { data_ = some bytes; len = suc l })

-- What the second constructor puts at one end: `n` bytes of the source, or what the memory held.
unfoldable pub copy_part : ℕ → Option (List ℕ) → ℕ → List ℕ → Option (List ℕ)
unfolding memcpy
copy_part room none n memory = some (take n memory)
copy_part room (some src) zero memory = some []
copy_part room (some src) (suc n) memory = memcpy room src (suc n)

-- `VSimpleBuffer(data1, l1, data2, l2)`, into a block that held `memory`. The sum of the lengths is a `size_t`.
unfoldable pub new_joined : Option (List ℕ) → ℕ → Option (List ℕ) → ℕ → List ℕ → Option Buffer
unfolding copy_part
new_joined none l1 none l2 memory = some invalid
new_joined data1 l1 data2 l2 memory =
    let l = (l1 + l2) % 2 ^ 64 in
    let copied : Option Buffer = (do
      part1 ← copy_part l data1 l1 memory
      part2 ← copy_part (l - l1) data2 l2 (drop l1 memory)
      some (record { data_ = some (part1 ++ part2); len = l })) in
    if l == 0 then some invalid else copied

-- `isValid`
abbrev pub is_valid : Buffer → Bool
is_valid b = elim b.data_ [ none ↦ false | some bytes ↦ not (b.len == 0) ]
