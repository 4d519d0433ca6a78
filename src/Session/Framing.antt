-- ===== src/Session/Framing.antt =====
-- What a session delivers from a stream of bytes, however the stream was cut on its way: each outstanding
-- read takes the bytes it asks for.
use model_lib.Common.{
  ℕ, zero, suc, ◌+◌, ◌*◌, ◌≤◌, ◌<◌, ◌≡◌, refl, sym, ap, ◌∙◌, Bool, true, Option, List, [], ◌∷◌,
  ◌++◌, append_assoc, append-nil, length, length-append, length-eq-zero, take, drop, take-append,
  drop-append, ltb, ◌==◌, ◌||◌, if◌then◌else◌, arith, dec_lt,
}
use model_lib.Session.{
  Session, Reading, Effect, received, done, wanted, lock_user, on_read, max_length, store,
}
use model_lib.Session.Wire.{
  Header, encode_header, InRange, length-encode_header, decode-encode_header,
}

module _ (alive : ℕ → Bool) (installed : Bool) where
  -- The reads that a stream can serve, `fuel` of them at most: the session, what it did, and the rest.
  pub pump : ℕ → Session → List ℕ → Session × List Effect × List ℕ
  pump zero s stream = (s, [], stream)
  pump (suc fuel) s stream =
      let (s', es) = on_read alive installed (done (take (wanted s) stream)) s in
      let (s'', es', rest) = pump fuel s' (drop (wanted s) stream) in
      if wanted s == 0 || ltb (length stream) (wanted s)
      then (s, [], stream)
      else (s'', es ++ es', rest)

abbrev prepend : List Effect → Session × List Effect × List ℕ → Session × List Effect × List ℕ
prepend es (s, es', rest) = (s, es ++ es', rest)

module _ (alive : ℕ → Bool) (installed : Bool) where
  pump_step :
      (fuel : ℕ) (s : Session) (bytes rest : List ℕ)
      → 0 < length bytes
      → wanted s ≡ length bytes
      → pump alive installed (suc fuel) s (bytes ++ rest)
        ≡ prepend
            (on_read alive installed (done bytes) s).1
            (pump alive installed fuel (on_read alive installed (done bytes) s).0 rest)
  unfolding pump
  pump_step fuel s bytes rest pos e =
      rw (e, take-append bytes rest (length bytes) refl, drop-append bytes rest (length bytes) refl)
        (ground (arith, length-append bytes rest))

  pump_wait : (fuel : ℕ) (s : Session) → 0 < wanted s → pump alive installed fuel s [] ≡ (s, [], [])
  unfolding pump
  pump_wait zero s h = refl
  pump_wait (suc fuel) s h = ground arith

pub record Packet : Type 0 where
  pub head : Header
  pub payload : List ℕ

abbrev pub encode_packet : Packet → List ℕ
encode_packet p = encode_header p.head ++ p.payload

abbrev pub encode_all : List Packet → List ℕ
encode_all [] = []
encode_all (p ∷ ps) = encode_packet p ++ encode_all ps

-- The header tells the length of the body, which is below the limit.
pub record Sendable (p : Packet) : Type 0 where
  pub in_range : InRange p.head
  pub sized : length p.payload ≡ p.head.len
  pub small : p.head.len < max_length

abbrev pub AllSendable : List Packet → Type 0
AllSendable [] = Unit {0}
AllSendable (p ∷ ps) = Sendable p × AllSendable ps

-- The calls of `ReceivePacket`, one for each packet.
abbrev pub deliveries : Option ℕ → List Packet → List Effect
deliveries u [] = []
deliveries u (p ∷ ps) = received u p.head p.payload ∷ deliveries u ps

module _ (alive : ℕ → Bool) where
  -- The header of a packet that has a body asks for the body.
  read_header_step :
      (h : Header) (s : Session)
      → s.reading ≡ Reading.header
      → InRange h
      → h.len < max_length
      → 0 < h.len
      → on_read alive true (done (encode_header h)) s
        ≡ (record s { header_ = h; reading = Reading.body }, [])
  unfolding on_read
  read_header_step h s e r small pos = rw e (rw (decode-encode_header h r) (ground arith))

  -- The body is delivered, and the next header is asked for.
  read_body_step :
      (payload : List ℕ) (s : Session)
      → s.reading ≡ Reading.body
      → length payload ≡ s.header_.len
      → on_read alive true (done payload) s ≡ (
        record s { data_ = store 0 payload s.data_; reading = Reading.header },
        received (lock_user alive s) s.header_ payload ∷ [],
      )
  unfolding on_read
  read_body_step payload s e len =
      rw e (rw (take-append payload (drop (0 + length payload) s.data_) s.header_.len len))

  -- A packet with no body is delivered with its header.
  read_empty_step :
      (h : Header) (s : Session)
      → s.reading ≡ Reading.header
      → InRange h
      → h.len ≡ 0
      → on_read alive true (done (encode_header h)) s ≡ (
        record s { data_ = store 0 [] s.data_; header_ = h; reading = Reading.header },
        received (lock_user alive s) h [] ∷ [],
      )
  unfolding on_read
  read_empty_step h s e r z = rw e (rw (decode-encode_header h r) (ground (arith, z)))

  -- The session after a packet with a body, and after one with none.
  abbrev after_body : Packet → Session → Session
  after_body p s = record s {
    data_ = store 0 p.payload s.data_;
    header_ = p.head;
    reading = Reading.header;
  }

  packet_body_run :
      (fuel : ℕ) (s : Session) (p : Packet) (tail : List ℕ)
      → Sendable p
      → s.reading ≡ Reading.header
      → 0 < p.head.len
      → pump alive true (suc (suc fuel)) s (encode_packet p ++ tail)
        ≡ prepend
            (received (lock_user alive s) p.head p.payload ∷ [])
            (pump alive true fuel (after_body p s) tail)
  packet_body_run fuel s p tail ok e pos =
      ap (pump alive true (suc (suc fuel)) s) (append_assoc (encode_header p.head) p.payload tail)
      ∙ pump_step alive true (suc fuel) s (encode_header p.head) (p.payload ++ tail)
          (rw (length-encode_header p.head) (omega arith)) (rw (e, length-encode_header p.head))
      ∙ rw (read_header_step p.head s e ok.in_range ok.small pos) (
          pump_step alive true fuel _ p.payload tail (rw (ok.sized) pos) (sym ok.sized)
          ∙ rw (
              read_body_step p.payload (record s { header_ = p.head; reading = Reading.body }) refl
                ok.sized))

  packet_empty_run :
      (fuel : ℕ) (s : Session) (p : Packet) (tail : List ℕ)
      → Sendable p
      → s.reading ≡ Reading.header
      → p.head.len ≡ 0
      → pump alive true (suc fuel) s (encode_packet p ++ tail)
        ≡ prepend
            (received (lock_user alive s) p.head p.payload ∷ [])
            (pump alive true fuel (after_body p s) tail)
  packet_empty_run fuel s p tail ok e z =
      rw (length-eq-zero p.payload (ok.sized ∙ z), append-nil (encode_header p.head))
        (pump_step alive true fuel s (encode_header p.head) tail
            (rw (length-encode_header p.head) (omega arith)) (rw (e, length-encode_header p.head))
          ∙ rw (read_empty_step p.head s e ok.in_range z))

  -- What is left to show of a run: the deliveries, the whole stream read, and the session ready for more.
  abbrev pub Delivers : Session → List Packet → Session × List Effect × List ℕ → Type 0
  Delivers s ps (s', es, rest) =
      (es ≡ deliveries (lock_user alive s) ps)
      × (rest ≡ [])
      × (s'.reading ≡ Reading.header)
      × (s'.user ≡ s.user)

  -- A session that waits for a header and is sent any sequence of packets, each with a body of the length
  -- that its header tells and below `max_length`, hands each packet to `ReceivePacket` once, in order, with
  -- the header and the body that were sent, and waits for the next header. Two reads for each packet are
  -- enough.
  pub pump-encode_all :
      (ps : List Packet) (fuel : ℕ) (s : Session)
      → AllSendable ps
      → 2 * length ps ≤ fuel
      → s.reading ≡ Reading.header
      → Delivers s ps (pump alive true fuel s (encode_all ps))
  pump-encode_all [] fuel s ok enough e =
      rw (pump_wait alive true fuel s (rw e (omega arith))) (refl, refl, e, refl)
  pump-encode_all (p ∷ ps) zero s ok enough e = absurd (omega arith)
  pump-encode_all (p ∷ ps) (suc zero) s ok enough e = absurd (omega arith)
  pump-encode_all (p ∷ ps) (suc (suc fuel)) s ok enough e = elim (dec_lt 0 p.head.len) [
    | yes pos ↦ rw (packet_body_run fuel s p (encode_all ps) ok.0 e pos) (
        let ih = pump-encode_all ps fuel (after_body p s) ok.1 (omega arith) refl in
        (ap (◌∷◌ (received (lock_user alive s) p.head p.payload)) ih.0, ih.1, ih.2, ih.3))
    | no empty ↦ rw (packet_empty_run (suc fuel) s p (encode_all ps) ok.0 e (omega arith)) (
        let ih = pump-encode_all ps (suc fuel) (after_body p s) ok.1 (omega arith) refl in
        (ap (◌∷◌ (received (lock_user alive s) p.head p.payload)) ih.0, ih.1, ih.2, ih.3))
  ]
