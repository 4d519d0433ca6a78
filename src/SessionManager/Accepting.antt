-- ===== src/SessionManager/Accepting.antt =====
-- What the accept loop does, over any sequence of completions.
use model_lib.Common.{
  ℕ, zero, suc, ◌+◌, ◌<◌, ◌≡◌, refl, ap, ◌∙◌, Bool, true, false, none, some, List, [], ◌∷◌, ◌++◌,
  append_assoc, append-nil, arith, ==_ne,
}
use model_lib.RingBuffer.{new_sized, push, pop}
use model_lib.SessionManager.{
  AsyncServer, Effect, reset, close_socket, destroy, start, new_session_manager, create_session_ptr,
  close_session, start_accept, handle_accept, accept, new_async_server,
}

pop-new_sized : (n : ℕ) → pop (new_sized n) ≡ (new_sized n, 0)
unfolding pop new_sized
pop-new_sized n = refl

pub push-new_sized : (t n : ℕ) → push t (new_sized n) ≡ (new_sized n, false)
unfolding push new_sized
push-new_sized t n = refl

-- An accept completes, with an error or without; or the last reference to a session goes.
pub data Event : Type 0 where
  accepted : Bool → Event
  dropped : ℕ → Event

abbrev pub event : Event → AsyncServer → AsyncServer
event (accepted error) a = accept error a
event (dropped s) a =
    let (m, es) = close_session s a.manager in record a { manager = m; effects = a.effects ++ es }

abbrev pub events : List Event → AsyncServer → AsyncServer
events [] a = a
events (e ∷ es) a = events es (event e a)

-- How many accepts have completed.
abbrev pub completed : List Event → ℕ
completed [] = 0
completed (accepted error ∷ es) = suc (completed es)
completed (dropped s ∷ es) = completed es

-- What is to happen when the sessions are numbered from `k` on in the order of the accepts: one that is accepted is
-- started, and one that is not, or that is dropped, is reset and destroyed.
abbrev pub closed : ℕ → List Effect
closed zero = []
closed (suc s) = reset (suc s) ∷ destroy (suc s) ∷ []

abbrev pub outcome : ℕ → List Event → List Effect
outcome k [] = []
outcome k (accepted false ∷ es) = start k ∷ outcome (suc k) es
outcome k (accepted true ∷ es) = close_socket k ∷ closed k ++ outcome (suc k) es
outcome k (dropped s ∷ es) = closed s ++ outcome k es

-- A server that waits with session `suc k`.
abbrev waiting : ℕ → ℕ → List Effect → AsyncServer
waiting n k done = record {
  manager = record { pool = new_sized n; next = suc (suc k) };
  accepting = some (suc k);
  effects = done;
}

start_accept-new_sized :
    (n k : ℕ) (a : AsyncServer)
    → a.manager ≡ record { pool = new_sized n; next = suc k }
    → start_accept a ≡ record a {
      manager = record { pool = new_sized n; next = suc (suc k) };
      accepting = some (suc k);
    }
unfolding start_accept create_session_ptr
start_accept-new_sized n k a e =
    rw (e, pop-new_sized n) (rw (==_ne (suc k) 0 (λ h. omega arith)) refl)

close-new_sized :
    (n s k : ℕ)
    → close_session s (record { pool = new_sized n; next = k })
      ≡ (record { pool = new_sized n; next = k }, closed s)
unfolding close_session
close-new_sized n zero k = refl
close-new_sized n (suc s) k = rw (push-new_sized (suc s) n) refl

accept_started :
    (n k : ℕ) (done : List Effect)
    → accept false (waiting n k done) ≡ waiting n (suc k) (done ++ start (suc k) ∷ [])
unfolding accept handle_accept
accept_started n k done =
    start_accept-new_sized n (suc k) (waiting n k (done ++ start (suc k) ∷ [])) refl

accept_failed :
    (n k : ℕ) (done : List Effect)
    → accept true (waiting n k done)
      ≡ waiting n (suc k) ((done ++ close_socket (suc k) ∷ []) ++ closed (suc k))
unfolding accept handle_accept close_session
accept_failed n k done =
    rw (start_accept-new_sized n (suc k) (waiting n k (done ++ close_socket (suc k) ∷ [])) refl)
      (rw (push-new_sized (suc k) n) refl)

dropped_closed :
    (n k s : ℕ) (done : List Effect)
    → event (dropped s) (waiting n k done) ≡ waiting n k (done ++ closed s)
dropped_closed n k s done = rw (close-new_sized n s (suc (suc k))) refl

events-waiting :
    (es : List Event) (n k j : ℕ) (done : List Effect)
    → j ≡ k + completed es
    → events es (waiting n k done) ≡ waiting n j (done ++ outcome (suc k) es)
events-waiting [] n k j done e = let e' : j ≡ k = omega arith in rw (e', append-nil done) refl
events-waiting (accepted false ∷ es) n k j done e =
    ap (events es) (accept_started n k done)
    ∙ events-waiting es n (suc k) j _ (omega arith)
    ∙ ap (waiting n j) (append_assoc done (start (suc k) ∷ []) (outcome (suc (suc k)) es))
events-waiting (accepted true ∷ es) n k j done e =
    ap (events es) (accept_failed n k done)
    ∙ events-waiting es n (suc k) j _ (omega arith)
    ∙ ap (waiting n j) (
        append_assoc (done ++ close_socket (suc k) ∷ []) (closed (suc k)) (outcome (suc (suc k)) es)
        ∙ append_assoc done (close_socket (suc k) ∷ [])
            (closed (suc k) ++ outcome (suc (suc k)) es))
events-waiting (dropped s ∷ es) n k j done e =
    ap (events es) (dropped_closed n k s done)
    ∙ events-waiting es n k j _ (omega arith)
    ∙ ap (waiting n j) (append_assoc done (closed s) (outcome (suc k) es))

-- From the start on, whatever accepts complete and sessions go: one accept is always outstanding, with a session that
-- is new; each session that was accepted is started, in order; each that failed or went is reset and
-- destroyed, and the pool never keeps or gives one.
pub accepts_go_on :
    (recycle_session next : ℕ) (es : List Event)
    → 0 < next
    → let a = events es (new_async_server recycle_session next) in
      (a.accepting ≡ some (next + completed es))
      × (a.effects ≡ outcome next es)
      × (a.manager.pool ≡ new_sized recycle_session)
unfolding new_async_server new_session_manager
accepts_go_on n zero es h = absurd (omega arith)
accepts_go_on n (suc k) es h = rw run (omega_next, refl, refl)
  where
    idle : AsyncServer
    idle = record {
      manager = record { pool = new_sized n; next = suc k };
      accepting = none;
      effects = [];
    }

    run :
        events es (new_async_server n (suc k))
        ≡ waiting n (k + completed es) ([] ++ outcome (suc k) es)
    run =
        ap (events es) (start_accept-new_sized n k idle refl)
        ∙ events-waiting es n k (k + completed es) [] (omega arith)

    omega_next : some (suc (k + completed es)) ≡ some (suc k + completed es)
    omega_next = ap some (omega arith)
