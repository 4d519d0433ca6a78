-- ===== src/Session/Drain.antt =====
-- src/VNetWork/VAsyncServer.hpp, the writing half of `session`, where every write that is begun succeeds.
use model_lib.Common.{
  ℕ, zero, suc, ◌≡◌, ◌≢◌, refl, sym, ap, ◌∙◌, inl, inr, true, false, Option, none, some, List, [],
  ◌∷◌, ◌++◌, append-nil, length, length-eq-zero, Bool-cases, arith,
}
use model_lib.SimpleBuffer.{Buffer}
use model_lib.Session.Queue.{Begun, handle_write, write_next}
use model_lib.Session.Fifo.{System, Step, Reach, Reach-Inv, log, front}

abbrev succeeded : System → Begun → System
succeeded s (w, next) = record {
  writer = w;
  posted = s.posted;
  begun = log s.begun next;
  sent = s.sent ++ front s.writer.datas;
  broken = s.broken;
}

-- To pop from the empty queue, a fault, is left out: the state stays.
abbrev or_same : System → Option Begun → System
or_same s none = s
or_same s (some begun) = succeeded s begun

-- The outstanding write succeeds.
unfoldable pub complete : System → System
unfolding handle_write
complete s = or_same s (handle_write false s.writer)

unfoldable pub drain : ℕ → System → System
drain zero s = s
drain (suc n) s = drain n (complete s)

write_next-shorter :
    (ds : List Buffer)
    → ds ≢ []
    → (b : Begun) × (write_next ds ≡ some b) × (suc (length b.0.datas) ≡ length ds)
unfolding write_next
write_next-shorter [] h = absurd (h refl)
write_next-shorter (d ∷ []) h = ((record { datas = []; outstanding = false }, none), refl, refl)
write_next-shorter (d ∷ c ∷ ds) h =
    ((record { datas = c ∷ ds; outstanding = true }, some c), refl, refl)

complete-succeeded :
    (s : System) (b : Begun) → handle_write false s.writer ≡ some b → complete s ≡ succeeded s b
unfolding complete
complete-succeeded s b e = ap (or_same s) e

complete-Step :
    (s : System)
    → s.writer.outstanding ≡ true
    → s.writer.datas ≢ []
    → Step s (complete s)
      × ((complete s).posted ≡ s.posted)
      × ((complete s).broken ≡ s.broken)
      × (suc (length (complete s).writer.datas) ≡ length s.writer.datas)
unfolding handle_write
complete-Step s o h =
    let (b, e, less) = write_next-shorter s.writer.datas h in
    rw (complete-succeeded s b e) (Step.succeed o e, refl, refl, less)

-- From every reachable state in which no write has failed, as many successful writes as there are buffers queued
-- lead to a reachable state in which all that was posted has been sent, in order, nothing is queued and no write is
-- outstanding.
pub drain-sends_all :
    (n : ℕ) (s : System)
    → Reach s
    → s.broken ≡ false
    → length s.writer.datas ≡ n
    → Reach (drain n s)
      × ((drain n s).sent ≡ s.posted)
      × ((drain n s).posted ≡ s.posted)
      × ((drain n s).writer.datas ≡ [])
      × ((drain n s).writer.outstanding ≡ false)
unfolding drain
drain-sends_all zero s r whole len =
    let v = Reach-Inv r in
    let empty = length-eq-zero s.writer.datas len in
    (
      r,
      sym (v.queued ∙ ap (◌++◌ s.sent) empty ∙ append-nil s.sent),
      refl,
      empty,
      elim (Bool-cases s.writer.outstanding) [ inl o ↦ absurd (v.busy o empty) | inr e ↦ e ],
    )
drain-sends_all (suc n) s r whole len =
    let v = Reach-Inv r in
    let waits : s.writer.datas ≢ [] = λ e. absurd (omega (arith, len, ap length e)) in
    let (step, posted, broken, less) = complete-Step s (v.at_work whole waits) waits in
    let (reach, sent, same, empty, idle) =
      drain-sends_all n (complete s) (Reach.next r step) (broken ∙ whole)
        (omega (arith, less, len)) in
    (reach, sent ∙ posted, same ∙ posted, empty, idle)
