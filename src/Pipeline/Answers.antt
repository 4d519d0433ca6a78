-- ===== src/Pipeline/Answers.antt =====
-- From `SendPacket` of a user to the peer that reads what its session has written: src/VChatLib/VChatUser.cpp and
-- the two halves of `session` in src/VNetWork/VAsyncServer.hpp.
use mathlib.Core.Path.{subst}
use mathlib.Core.Option.{some_inj}
use native.Mathlib.Nat.{le_refl}
use model_lib.Common.{
  ℕ, zero, suc, ◌*◌, ◌^◌, ◌<◌, ◌⊎◌, inl, inr, ◌≡◌, refl, sym, ap, ◌∙◌, Bool, true, false, none,
  some, List, [], ◌∷◌, ◌++◌, length, take, take_all, length-take, append-nil, arith,
}
use model_lib.User.{get_session}
use model_lib.ChatUser.{ChatUser, send_packet}
use model_lib.ChatUser.Sending.{send_packet-posts}
use model_lib.SimpleBuffer.{Buffer}
use model_lib.Session.{Session, Reading}
use model_lib.Session.Framing.{
  Packet, AllSendable, encode_packet, encode_all, Delivers, pump, pump-encode_all,
}
use model_lib.Session.Drain.{drain, drain-sends_all}
use model_lib.Session.Fifo.{System, Reach, Ordered, Reach-Inv}

-- `async_write(socket_, const_buffers_1(data_, len_), …)`: the bytes of a write.
unfoldable pub written : Buffer → List ℕ
written b = elim b.data_ [ none ↦ [] | some bytes ↦ take b.len bytes ]

pub written-whole :
    (b : Buffer) (bytes : List ℕ) → b.data_ ≡ some bytes → b.len ≡ length bytes → written b ≡ bytes
unfolding written
written-whole b bytes holds len = rw holds (take_all bytes b.len (sym len))

abbrev pub written_all : List Buffer → List ℕ
written_all [] = []
written_all (b ∷ bs) = written b ++ written_all bs

module _ (alive : ℕ → Bool) (u : ChatUser) (conn : ℕ) where
  -- The buffers that `SendPacket` of the user posts to the session, one for each packet.
  abbrev pub Posts : List Packet → List Buffer → Type 0
  Posts [] [] = Unit {0}
  Posts (p ∷ ps) (b ∷ bs) =
      ((memory : List ℕ) × (send_packet alive p.head (some p.payload) memory u
          ≡ some (some (conn, b))))
      × Posts ps bs
  Posts [] (b ∷ bs) = ⊥
  Posts (p ∷ ps) [] = ⊥

  Posts-take :
      (ps : List Packet) (bs cs : List Buffer)
      → Posts ps (bs ++ cs)
      → Posts (take (length bs) ps) bs
  Posts-take ps [] cs h = tt
  Posts-take [] (b ∷ bs) cs h = elim h [ ]
  Posts-take (p ∷ ps) (b ∷ bs) cs h = (h.0, Posts-take ps bs cs h.1)

  length-Posts : (ps : List Packet) (bs : List Buffer) → Posts ps bs → length ps ≡ length bs
  length-Posts [] [] h = refl
  length-Posts (p ∷ ps) (b ∷ bs) h = ap suc (length-Posts ps bs h.1)
  length-Posts [] (b ∷ bs) h = elim h [ ]
  length-Posts (p ∷ ps) [] h = elim h [ ]

  written-packet :
      (p : Packet) (b : Buffer) (memory : List ℕ)
      → get_session alive u.base ≡ some conn
      → length p.payload ≡ p.head.len
      → p.head.len < 2 ^ 32
      → send_packet alive p.head (some p.payload) memory u ≡ some (some (conn, b))
      → written b ≡ encode_packet p
  written-packet p b memory live sized fits e =
      let (b', made, holds, len) =
        send_packet-posts alive u conn p.head p.payload memory live sized fits in
      let same : b' ≡ b = ap (λ (x : ℕ × Buffer). x.1) (some_inj.0 (some_inj.0 (sym made ∙ e))) in
      subst (λ (x : Buffer). written x ≡ encode_packet p) same
        (written-whole b' (encode_packet p) holds len)

  written_all-encode_all :
      (ps : List Packet) (bs : List Buffer)
      → get_session alive u.base ≡ some conn
      → AllSendable ps
      → Posts ps bs
      → written_all bs ≡ encode_all ps
  written_all-encode_all [] [] live ok h = refl
  written_all-encode_all (p ∷ ps) (b ∷ bs) live ok ((memory, e), h) =
      rw
        (
          written-packet p b memory live ok.0.sized ok.0.in_range.len_fits e,
          written_all-encode_all ps bs live ok.1 h,
        )
        refl
  written_all-encode_all [] (b ∷ bs) live ok h = elim h [ ]
  written_all-encode_all (p ∷ ps) [] live ok h = elim h [ ]

AllSendable-take : (n : ℕ) (ps : List Packet) → AllSendable ps → AllSendable (take n ps)
AllSendable-take zero ps ok = tt
AllSendable-take (suc n) [] ok = tt
AllSendable-take (suc n) (p ∷ ps) ok = (ok.0, AllSendable-take n ps ok.1)

-- Unless a write has failed or is outstanding, as many buffers were sent as were posted.
all_sent :
    (datas : List Buffer) (outstanding broken : Bool) {posted begun sent : List Buffer}
    → Ordered datas outstanding posted begun sent broken
    → (broken ≡ true) ⊎ ((outstanding ≡ true) ⊎ (length sent ≡ length posted))
all_sent datas outstanding true v = inl refl
all_sent [] outstanding false {posted} {begun} {sent} v =
    inr (inr (sym (ap length (v.queued ∙ append-nil sent))))
all_sent (d ∷ datas) outstanding false v = inr (inl (v.at_work refl λ e. cc))

-- The buffers that a session was posted are those of `SendPacket` for some sendable packets; its writes are begun
-- and complete in any order that can be. A peer that runs `session` too, waits for a header and reads the bytes of
-- the writes that have succeeded is delivered the first of these packets, as many as writes, once each, in order
-- and unchanged, and waits for the next header. Unless a write has failed or is outstanding, it was all of them.
pub answers-read :
    (alive exists : ℕ → Bool) (u : ChatUser) (conn : ℕ) (ps : List Packet) (peer : Session)
    {s : System}
    → Reach s
    → get_session alive u.base ≡ some conn
    → AllSendable ps
    → Posts alive u conn ps s.posted
    → peer.reading ≡ Reading.header
    → Delivers exists peer
        (take (length s.sent) ps)
        (pump exists true (2 * length s.sent) peer (written_all s.sent))
      × ((s.broken ≡ true) ⊎ ((s.writer.outstanding ≡ true) ⊎ (take (length s.sent) ps ≡ ps)))
answers-read alive exists u conn ps peer {s} r live ok posts waits =
    let v = Reach-Inv r in
    let n = length s.sent in
    let first = AllSendable-take n ps ok in
    let sent =
      Posts-take alive u conn ps s.sent s.writer.datas
        (subst (Posts alive u conn ps) v.queued posts) in
    (
      rw (written_all-encode_all alive u conn (take n ps) s.sent live first sent) (
          pump-encode_all exists (take n ps) (2 * n) peer first (omega (arith, length-take n ps))
            waits),
      elim (all_sent s.writer.datas s.writer.outstanding s.broken v) [
        | inl broken ↦ inl broken
        | inr (inl busy) ↦ inr (inl busy)
        | inr (inr all) ↦
            inr (inr (take_all ps n (length-Posts alive u conn ps s.posted posts ∙ sym all)))
      ],
    )

-- If no write has failed and every write from here on succeeds, then after as many as there are buffers queued the
-- queue is empty, no write is outstanding, and a peer that waits for a header and reads all that was written is
-- delivered every packet that was sent, once each, in order and unchanged.
pub answers-all :
    (alive exists : ℕ → Bool) (u : ChatUser) (conn : ℕ) (ps : List Packet) (peer : Session)
    {s : System}
    → Reach s
    → s.broken ≡ false
    → get_session alive u.base ≡ some conn
    → AllSendable ps
    → Posts alive u conn ps s.posted
    → peer.reading ≡ Reading.header
    → let t = drain (length s.writer.datas) s in
      Reach t
      × (t.writer.datas ≡ [])
      × (t.writer.outstanding ≡ false)
      × Delivers exists peer ps (pump exists true (2 * length ps) peer (written_all t.sent))
answers-all alive exists u conn ps peer {s} r whole live ok posts waits =
    let (reach, sent, same, empty, idle) = drain-sends_all (length s.writer.datas) s r whole refl in
    (
      reach,
      empty,
      idle,
      rw (sent, written_all-encode_all alive u conn ps s.posted live ok posts)
          (pump-encode_all exists ps (2 * length ps) peer ok (le_refl _) waits),
    )
