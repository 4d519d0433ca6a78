-- ===== src/RingBuffer/Threads.antt =====
-- src/VCommon/VAllocatorHandler.h: `SafeRingBuffer::push` and `pop` called by any number of threads. One
-- move is one access to shared memory: a step of the atomic counter, or what a thread does to the array
-- and `cur_` between its test of the counter and its next step of it.
pub mod Exclusion
use model_lib.Common.{
  ℕ, zero, suc, ◌-◌, ◌≤◌, ◌<◌, ◌≡◌, Bool, true, false, List, length, set, get_or,
}
use model_lib.Common.Int.{ℤ, dec, inc, is_zero}
use model_lib.RingBuffer.{RingBuffer}

-- Where a thread stands, with the locals that are live there.
pub data Pc : Type 0 where
  idle : Pc
  got_push : (t : ℕ) (v : ℤ) → Pc  -- `--signal_` in `push` gave v
  in_push : (t : ℕ) → Pc  -- the test in `push` passed
  stored : Pc  -- before the second `--signal_`
  got_pop : (v : ℤ) → Pc  -- `--signal_` in `pop` gave v
  in_pop : Pc  -- the test in `pop` passed
  leave : Pc  -- before `++signal_`

-- The buffer, and how many pushes have returned true.
pub record Shared : Type 0 where
  pub buf : RingBuffer
  pub won : ℕ

abbrev pub with_signal : ℤ → Shared → Shared
with_signal v m = record m { buf = record (m.buf) { signal = v } }

pub data Move (m : Shared) : Pc → Shared → Pc → Type 0 where
  begin_push :
      (t : ℕ) → Move m idle (with_signal (dec m.buf.signal) m) (got_push t (dec m.buf.signal))
  enter_push : {t : ℕ} {v : ℤ} → is_zero v ≡ true → Move m (got_push t v) m (in_push t)
  miss_push : {t : ℕ} {v : ℤ} → is_zero v ≡ false → Move m (got_push t v) m leave
  store :
      {t : ℕ}
      → m.buf.cur < m.buf.size
      → Move m
          (in_push t)
          (record m {
            buf = record (m.buf) { slots = set m.buf.slots m.buf.cur t; cur = suc m.buf.cur };
          })
          stored
  full : {t : ℕ} → m.buf.size ≤ m.buf.cur → Move m (in_push t) m leave
  seal :
      Move m stored
        (record { buf = record (m.buf) { signal = dec m.buf.signal }; won = suc m.won })
        idle
  begin_pop : Move m idle (with_signal (dec m.buf.signal) m) (got_pop (dec m.buf.signal))
  enter_pop : {v : ℤ} → is_zero v ≡ true → Move m (got_pop v) m in_pop
  miss_pop : {v : ℤ} → is_zero v ≡ false → Move m (got_pop v) m leave
  take_last :
      0 < m.buf.cur
      → Move m in_pop (record m { buf = record (m.buf) { cur = m.buf.cur - 1 } }) leave
  empty : m.buf.cur ≡ 0 → Move m in_pop m leave
  release : Move m leave (with_signal (inc m.buf.signal) m) idle

pub record System : Type 0 where
  pub mem : Shared
  pub threads : List Pc

pub data Step (s : System) : System → Type 0 where
  pick :
      (i : ℕ) {m : Shared} {p : Pc}
      → i < length s.threads
      → Move s.mem (get_or s.threads i idle) m p
      → Step s (record { mem = m; threads = set s.threads i p })

pub data Reach (s : System) : System → Type 0 where
  here : Reach s s
  next : {t u : System} → Reach s t → Step t u → Reach s u
