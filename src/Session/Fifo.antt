-- ===== src/Session/Fifo.antt =====
-- Writes in any order of posts and completions: a queue.
use model_lib.Common.{
  ◌≡◌, ◌≢◌, refl, sym, ap, ◌∙◌, Bool, true, false, Option, none, some, List, [], ◌∷◌, ◌++◌,
  append_assoc, append-nil, drop, arith,
}
use mathlib.Core.Path.{subst}
use mathlib.Core.Option.{some_inj}
use model_lib.SimpleBuffer.{Buffer}
use model_lib.Session.Queue.{Writer, Begun, do_write, handle_write}

-- The writer with its history: the buffers posted, those that a write was begun for, those whose write has
-- succeeded, and whether a write has failed.
pub record System : Type 0 where
  pub writer : Writer
  pub posted : List Buffer
  pub begun : List Buffer
  pub sent : List Buffer
  pub broken : Bool

abbrev pub init : System
init = record {
  writer = record { datas = []; outstanding = false };
  posted = [];
  begun = [];
  sent = [];
  broken = false;
}

abbrev pub log : List Buffer → Option Buffer → List Buffer
log bs none = bs
log bs (some b) = bs ++ b ∷ []

abbrev pub front : List Buffer → List Buffer
front [] = []
front (b ∷ bs) = b ∷ []

-- A post may come at any time, a completion only while a write is outstanding.
pub data Step (s : System) : System → Type 0 where
  post :
      (b : Buffer)
      → Step s (record {
        writer = (do_write false b s.writer).0;
        posted = s.posted ++ b ∷ [];
        begun = log s.begun (do_write false b s.writer).1;
        sent = s.sent;
        broken = s.broken;
      })
  succeed :
      {w : Writer} {next : Option Buffer}
      → s.writer.outstanding ≡ true
      → handle_write false s.writer ≡ some (w, next)
      → Step s (record {
        writer = w;
        posted = s.posted;
        begun = log s.begun next;
        sent = s.sent ++ front s.writer.datas;
        broken = s.broken;
      })
  fail :
      {w : Writer} {next : Option Buffer}
      → s.writer.outstanding ≡ true
      → handle_write true s.writer ≡ some (w, next)
      → Step s (record {
        writer = w;
        posted = s.posted;
        begun = log s.begun next;
        sent = s.sent;
        broken = true;
      })

pub data Reach : System → Type 0 where
  first : Reach init
  next : {s t : System} → Reach s → Step s t → Reach t

-- The queue holds what was posted and has not been sent, in order; a write has been begun for what was sent
-- and for the front. Unless a write has failed, one is outstanding whenever the queue is not empty.
pub record Ordered (datas : List Buffer) (outstanding : Bool) (posted begun sent : List Buffer)
    (broken : Bool) : Type 0 where
  pub queued : posted ≡ sent ++ datas
  pub in_turn : begun ≡ sent ++ front datas
  pub busy : outstanding ≡ true → datas ≢ []
  pub at_work : broken ≡ false → datas ≢ [] → outstanding ≡ true
  pub stopped : broken ≡ true → (outstanding ≡ false) × (datas ≢ [])

abbrev pub Inv : System → Type 0
Inv s = Ordered s.writer.datas s.writer.outstanding s.posted s.begun s.sent s.broken

abbrev writer : List Buffer → Bool → Writer
writer ds out = record { datas = ds; outstanding = out }

module _ {out broken : Bool} {posted begun sent : List Buffer} where
  post-Ordered :
      (ds : List Buffer) (b : Buffer)
      → Ordered ds out posted begun sent broken
      → Ordered
          (do_write false b (writer ds out)).0.datas
          (do_write false b (writer ds out)).0.outstanding
          (posted ++ b ∷ [])
          (log begun (do_write false b (writer ds out)).1)
          sent
          broken
  unfolding do_write
  post-Ordered [] b v = record {
    queued = ap (λ (l : List Buffer). l ++ b ∷ []) (v.queued ∙ append-nil sent);
    in_turn = ap (λ (l : List Buffer). l ++ b ∷ []) (v.in_turn ∙ append-nil sent);
    busy = λ h k. cc;
    at_work = λ h k. refl;
    stopped = λ h. absurd ((v.stopped h).1 refl);
  }
  post-Ordered (d ∷ ds) b v = record {
    queued = ap (λ (l : List Buffer). l ++ b ∷ []) v.queued ∙ append_assoc sent (d ∷ ds) (b ∷ []);
    in_turn = v.in_turn;
    busy = λ h k. cc;
    at_work = λ h k. v.at_work h (λ q. cc);
    stopped = λ h. ((v.stopped h).0, λ k. cc);
  }

  succeed-Ordered :
      (ds : List Buffer) {w : Writer} {next : Option Buffer}
      → out ≡ true
      → handle_write false (writer ds out) ≡ some (w, next)
      → Ordered ds out posted begun sent broken
      → Ordered w.datas w.outstanding posted (log begun next) (sent ++ front ds) broken
  unfolding handle_write
  succeed-Ordered [] o e v = absurd (v.busy o refl)
  succeed-Ordered (b ∷ []) o e v =
      subst
        (λ (r : Begun).
          Ordered r.0.datas r.0.outstanding posted (log begun r.1) (sent ++ b ∷ []) broken)
        (some_inj.0 e)
        (record {
          queued = v.queued ∙ sym (append-nil (sent ++ b ∷ []));
          in_turn = v.in_turn ∙ sym (append-nil (sent ++ b ∷ []));
          busy = λ h k. cc;
          at_work = λ h k. absurd (k refl);
          stopped = λ h. cc (v.stopped h).0;
        })
  succeed-Ordered (b ∷ c ∷ ds) o e v =
      subst
        (λ (r : Begun).
          Ordered r.0.datas r.0.outstanding posted (log begun r.1) (sent ++ b ∷ []) broken)
        (some_inj.0 e)
        (record {
          queued = v.queued ∙ sym (append_assoc sent (b ∷ []) (c ∷ ds));
          in_turn = ap (λ (l : List Buffer). l ++ c ∷ []) v.in_turn;
          busy = λ h k. cc;
          at_work = λ h k. refl;
          stopped = λ h. cc (v.stopped h).0;
        })

  fail-Ordered :
      (ds : List Buffer) {w : Writer} {next : Option Buffer}
      → out ≡ true
      → handle_write true (writer ds out) ≡ some (w, next)
      → Ordered ds out posted begun sent broken
      → Ordered w.datas w.outstanding posted (log begun next) sent true
  unfolding handle_write
  fail-Ordered ds o e v =
      subst (λ (r : Begun). Ordered r.0.datas r.0.outstanding posted (log begun r.1) sent true)
        (some_inj.0 e)
        (record {
          queued = v.queued;
          in_turn = v.in_turn;
          busy = λ h k. cc;
          at_work = λ h k. cc;
          stopped = λ h. (refl, v.busy o);
        })

pub Step-Inv : {s t : System} → Step s t → Inv s → Inv t
Step-Inv {s} (Step.post b) v = post-Ordered s.writer.datas b v
Step-Inv {s} (Step.succeed o e) v = succeed-Ordered s.writer.datas o e v
Step-Inv {s} (Step.fail o e) v = fail-Ordered s.writer.datas o e v

pub Reach-Inv : {s : System} → Reach s → Inv s
Reach-Inv Reach.first = record {
  queued = refl;
  in_turn = refl;
  busy = λ h k. cc;
  at_work = λ h k. absurd (k refl);
  stopped = λ h. cc;
}
Reach-Inv (Reach.next r st) = Step-Inv st (Reach-Inv r)

-- In every reachable state: the buffers that a write was begun for are the first of those posted, in the
-- order in which they were posted, each once; what is posted and not sent is in the queue; unless a write
-- has failed, one is outstanding while anything is unsent; and one that is outstanding has a buffer.
pub writes_in_order :
    {s : System}
    → Reach s
    → (s.posted ≡ s.begun ++ drop 1 s.writer.datas)
      × (s.posted ≡ s.sent ++ s.writer.datas)
      × (s.broken ≡ false → s.sent ≢ s.posted → s.writer.outstanding ≡ true)
      × (s.writer.outstanding ≡ true → s.writer.datas ≢ [])
writes_in_order {s} r = (
  v.queued
      ∙ ap (◌++◌ s.sent) (sym (front-drop s.writer.datas))
      ∙ sym (append_assoc s.sent (front s.writer.datas) (drop 1 s.writer.datas))
      ∙ ap (λ (l : List Buffer). l ++ drop 1 s.writer.datas) (sym v.in_turn),
  v.queued,
  λ h unsent. v.at_work h λ e. unsent (sym (v.queued ∙ ap (◌++◌ s.sent) e ∙ append-nil s.sent)),
  v.busy,
)
  where
    v : Inv s
    v = Reach-Inv r

    front-drop : (ds : List Buffer) → front ds ++ drop 1 ds ≡ ds
    front-drop [] = refl
    front-drop (d ∷ ds) = refl

queued_only : (w : Writer) (b : Buffer) → w.datas ≢ [] → (do_write false b w).1 ≡ none
unfolding do_write
queued_only w b h = ground arith

-- Once a write has failed none is begun any more, whatever is posted: the queue is not emptied.
broken_stays :
    {s t : System}
    → Reach s
    → s.broken ≡ true
    → Step s t
    → (t.begun ≡ s.begun) × (t.sent ≡ s.sent) × (t.broken ≡ true)
broken_stays {s} r h (Step.post b) =
    (ap (log s.begun) (queued_only s.writer b ((Reach-Inv r).stopped h).1), refl, h)
broken_stays {s} r h (Step.succeed o e) = cc (o, ((Reach-Inv r).stopped h).0)
broken_stays {s} r h (Step.fail o e) = cc (o, ((Reach-Inv r).stopped h).0)
