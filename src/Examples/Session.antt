-- ===== src/Examples/Session.antt =====
-- src/VNetWork/VAsyncServer.hpp, `session`, and `VSimpleBuffer`: a stream, a bad header, two writes.
use model_lib.Common.{
  ℕ, ◌+◌, ◌≤◌, ◌<◌, ◌≡◌, ◌≢◌, refl, true, false, some, List, [], ◌∷◌, ◌++◌, length, drop, replicate,
  arith,
}
use model_lib.SimpleBuffer.{Buffer}
use model_lib.Session.{Session, Reading, done, wanted, offset, max_length}
use model_lib.Session.Wire.{Header, InRange}
use model_lib.Session.Framing.{Packet, encode_all, Delivers, pump, pump-encode_all}
use model_lib.Session.Bounds.{IsSafe, serve, serve-in_bounds}
use model_lib.Session.Queue.{do_write}
use model_lib.Session.Fifo.{System, Step, Reach, writes_in_order}

abbrev header_of : ℕ → Header
header_of n = record { len = n; crc = 0; seq = 0; type = 7 }

abbrev waiting : Session
waiting = record {
  data_ = replicate 1024 0;
  header_ = header_of 0;
  user = some 5;
  reading = Reading.header;
}

-- A packet of two bytes and one with none.
abbrev packets : List Packet
packets =
    record { head = header_of 2; payload = 10 ∷ 20 ∷ [] }
    ∷ record { head = header_of 0; payload = [] }
    ∷ []

header_of-InRange : (n : ℕ) → n < 1024 → InRange (header_of n)
header_of-InRange n h = omega arith

pump-encode_all_example :
    Delivers (λ u. true) waiting packets (pump (λ u. true) true 4 waiting (encode_all packets))
pump-encode_all_example =
    pump-encode_all (λ u. true) packets 4 waiting
      (
        record { in_range = header_of-InRange 2 (omega arith); sized = refl; small = omega arith },
        (
          record {
            in_range = header_of-InRange 0 (omega arith);
            sized = refl;
            small = omega arith;
          },
          tt,
        ),
      )
      (omega arith) refl

waiting-IsSafe : IsSafe waiting
waiting-IsSafe = record { sized = refl; body_fits = λ e. cc }

-- A header that announces 3 bytes.
abbrev three : List ℕ
three = 3 ∷ 0 ∷ 0 ∷ 0 ∷ 0 ∷ 0 ∷ 0 ∷ 0 ∷ 0 ∷ 0 ∷ 0 ∷ 0 ∷ 7 ∷ 0 ∷ []

abbrev three_read : Session
three_read = serve (λ u. true) true (done three ∷ []) waiting

serve-in_bounds_example :
    (length three_read.data_ ≡ max_length)
    × (three_read.reading ≢ Reading.header
        → offset three_read.reading + wanted three_read ≤ length three_read.data_)
    × (three_read.reading ≡ Reading.body
        → (0 < three_read.header_.len) × (three_read.header_.len < 1024))
serve-in_bounds_example =
    serve-in_bounds (λ u. true) true (done three ∷ []) waiting waiting-IsSafe (refl, tt)

abbrev a_buffer : Buffer
a_buffer = record { data_ = some (1 ∷ []); len = 1 }

-- One buffer posted, and its write begun.
abbrev posted_one : System
posted_one = record {
  writer = record { datas = a_buffer ∷ []; outstanding = true };
  posted = a_buffer ∷ [];
  begun = a_buffer ∷ [];
  sent = [];
  broken = false;
}

posted_one-Reach : Reach posted_one
unfolding do_write
posted_one-Reach = Reach.next Reach.first (Step.post a_buffer)

writes_in_order_example :
    (posted_one.posted ≡ posted_one.begun ++ drop 1 posted_one.writer.datas)
    × (posted_one.posted ≡ posted_one.sent ++ posted_one.writer.datas)
    × (posted_one.broken ≡ false
        → posted_one.sent ≢ posted_one.posted
        → posted_one.writer.outstanding ≡ true)
    × (posted_one.writer.outstanding ≡ true → posted_one.writer.datas ≢ [])
writes_in_order_example = writes_in_order posted_one-Reach
