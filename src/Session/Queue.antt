-- ===== src/Session/Queue.antt =====
-- src/VNetWork/VAsyncServer.hpp: the writing half of `session`. Its handlers run in one strand, one after
-- another, and each `async_write` that is begun completes once.
use native.Mathlib.Nat.{le_refl}
use model_lib.Common.{
  ℕ, ◌≤◌, ◌≡◌, refl, ap, ◌∙◌, ◌==◌, take, take_all, arith, Bool, true, false, Option, none, some,
  ◌>>=◌, List, [], ◌∷◌, ◌++◌, length, if◌then◌else◌,
}
use model_lib.SimpleBuffer.{Buffer, is_valid, new_buffer, new_joined}
use model_lib.SimpleBuffer.Joined.{new_buffer-copies}
use model_lib.Session.{Session, Reading}

-- `m_datas`, and whether an `async_write` is outstanding.
pub record Writer : Type 0 where
  pub datas : List Buffer
  pub outstanding : Bool

abbrev pub is_empty : List Buffer → Bool
is_empty [] = true
is_empty (b ∷ bs) = false

-- The writer, and the buffer that an `async_write` is begun for.
abbrev pub Begun : Type 0
Begun = Writer × Option Buffer

-- `do_write(e, buffer)`
unfoldable pub do_write : Bool → Buffer → Writer → Begun
do_write true b w = (w, none)
do_write false b w =
    if is_empty w.datas
    then (record { datas = b ∷ []; outstanding = true }, some b)
    else (record w { datas = w.datas ++ b ∷ [] }, none)

-- What `handle_write` does once the write has succeeded; to pop from the empty queue is a fault.
unfoldable pub write_next : List Buffer → Option Begun
write_next [] = none
write_next (b ∷ []) = some (record { datas = []; outstanding = false }, none)
write_next (b ∷ c ∷ bs) = some (record { datas = c ∷ bs; outstanding = true }, some c)

-- `handle_write(e)`, but for the call of `handler_error` where the write has failed.
unfoldable pub handle_write : Bool → Writer → Option Begun
unfolding write_next
handle_write false w = write_next w.datas
handle_write true w = some (record w { outstanding = false }, none)

-- `send_buffer`: what is posted to the strand.
unfoldable pub send_buffer : Buffer → Option Buffer
send_buffer b = if is_valid b then some b else none

-- `write(data, l)`: the buffer that is posted, if it is valid; the outer `none` is a read past the data.
unfoldable write : Option (List ℕ) → ℕ → Option (Option Buffer)
unfolding new_buffer
write bytes l = do b ← new_buffer bytes l; some (send_buffer b)

-- `write(data1, l1, data2, l2)`, into a block that held `memory`.
unfoldable pub write_two :
    Option (List ℕ) → ℕ → Option (List ℕ) → ℕ → List ℕ → Option (Option Buffer)
unfolding new_joined
write_two data1 l1 data2 l2 memory = do
  b ← new_joined data1 l1 data2 l2 memory
  some (send_buffer b)

-- `write_object(t)` and `write_object(t1, t2)` of objects with these bytes.
unfoldable write_object : List ℕ → Option (Option Buffer)
unfolding write
write_object t = write (some t) (length t)

unfoldable write_two_objects : List ℕ → List ℕ → List ℕ → Option (Option Buffer)
unfolding write_two
write_two_objects t1 t2 memory = write_two (some t1) (length t1) (some t2) (length t2) memory

-- `start(bflow)`: the queue is emptied and a read begun, unless a socket option cannot be set.
unfoldable pub start : Bool → Bool → Session → Writer → Session × Writer × Bool
start options_set bflow s w =
    if options_set
    then (
      record s { reading = if bflow then Reading.flow else Reading.header },
      record w { datas = [] },
      true,
    )
    else (s, w, false)

-- `write` of bytes that are there posts a copy of the first `l`, and nothing for none.
write-posts :
    (src : List ℕ) (l : ℕ)
    → l ≤ length src
    → write (some src) l
      ≡ some (if l == 0 then none else some (record { data_ = some (take l src); len = l }))
unfolding write send_buffer
write-posts src l read = rw (new_buffer-copies src l read) (ground arith)

-- So does `write_object`, of the whole object.
write_object-posts :
    (t : List ℕ)
    → write_object t
      ≡ some (if length t == 0 then none else some (record { data_ = some t; len = length t }))
unfolding write_object
write_object-posts t =
    write-posts t (length t) (le_refl _)
    ∙ ap
        (λ (bytes : List ℕ).
          some
            (if length t == 0 then none else some (record { data_ = some bytes; len = length t })))
        (take_all t (length t) refl)
