-- ===== src/RingBuffer.antt =====
-- src/VCommon/VAllocatorHandler.h: the class `SafeRingBuffer`, instantiated at pointers, as both its users
-- do. A pointer is a number and 0 is null. `signal_` is an atomic counter that guards `cur_` and the
-- array; it is a `long` and is never near its bounds. This file runs one operation at a time;
-- RingBuffer/Threads.antt interleaves them.
pub mod Sealed
pub mod Threads
use model_lib.Common.{
  ℕ, suc, ◌-◌, Bool, true, false, List, [], ltb, if◌then◌else◌, get_or, set, take, replicate,
}
use model_lib.Common.Int.{ℤ, pos, dec, inc, is_zero}

-- Before `size` or the sized constructor has allocated it, the array is empty.
pub record RingBuffer : Type 0 where
  pub slots : List ℕ
  pub signal : ℤ
  pub size : ℕ
  pub cur : ℕ

-- `SafeRingBuffer()`
unfoldable pub new_buffer : RingBuffer
new_buffer = record { slots = []; signal = pos 1; size = 0; cur = 0 }

-- `SafeRingBuffer(size)`
unfoldable pub new_sized : ℕ → RingBuffer
new_sized size = record { slots = replicate size 0; signal = pos 0; size = size; cur = 0 }

-- `size(size)`; `cur_` is left as it was.
unfoldable pub resize : ℕ → RingBuffer → RingBuffer
resize size b = if ltb 0 size then record b { slots = replicate size 0; size = size } else b

-- What `push` does under the guard, up to its answer.
unfoldable pub push_inside : ℕ → RingBuffer → RingBuffer × Bool
push_inside t b =
    if ltb b.cur b.size
    then (record b { slots = set b.slots b.cur t; cur = suc b.cur; signal = dec b.signal }, true)
    else (record b { signal = inc b.signal }, false)

unfoldable pub push : ℕ → RingBuffer → RingBuffer × Bool
unfolding push_inside
push t b =
    let b' = record b { signal = dec b.signal } in
    if is_zero b'.signal then push_inside t b' else (record b' { signal = inc b'.signal }, false)

-- What `pop` reads under the guard.
unfoldable pub pop_inside : RingBuffer → RingBuffer × ℕ
pop_inside b =
    if ltb 0 b.cur then (record b { cur = b.cur - 1 }, get_or b.slots (b.cur - 1) 0) else (b, 0)

unfoldable pub pop : RingBuffer → RingBuffer × ℕ
unfolding pop_inside
pop b =
    let b' = record b { signal = dec b.signal } in
    let (b'', t) = (if is_zero b'.signal then pop_inside b' else (b', 0)) in
    (record b'' { signal = inc b''.signal }, t)

-- `clear(handler)`: the pointers that the handler is called on, in order. The buffer keeps them.
unfoldable pub clear : RingBuffer → List ℕ
clear b = take b.cur b.slots
