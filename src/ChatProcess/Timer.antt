-- ===== src/ChatProcess/Timer.antt =====
-- What the users of a room are told about its match-making timer.
use model_lib.Common.{
  ℕ, ◌≡◌, refl, ◌∙◌, inl, inr, Bool, true, false, Option, some, List, [], ◌∷◌, All, map, ◌==◌,
  if◌then◌else◌, Bool-cases, arith,
}
use model_lib.Room.{
  Room, Effect, Notice, send, start_mm_timer, stop_mm_timer, send_packet, start_mm, stop_mm,
  remove_usr, erase, find, without, room_enqueue_mm, is_empty, LogRow,
}
use mathlib.Core.Path.{subst}
use mathlib.Core.Option.{some_inj}
use model_lib.ChatProcess.{room_enter_mm_queue, room_leave_mm_queue}

-- Whether the timer of each user runs, by the notices it has had.
abbrev pub Timers : Type 0
Timers = ℕ → Bool

abbrev pub hear : Effect → Timers → Timers
hear (send start_mm_timer p) f = λ q. if p == q then true else f q
hear (send stop_mm_timer p) f = λ q. if p == q then false else f q
hear _ f = f

abbrev pub hear_all : List Effect → Timers → Timers
hear_all [] f = f
hear_all (e ∷ es) f = hear_all es (hear e f)

-- The timer of everybody in the room runs exactly if the room is queued.
abbrev pub Agrees : Room → Timers → Type 0
Agrees r f = All (λ (p : ℕ). f p ≡ (r.status == room_enqueue_mm)) r.users

-- What a room says to everybody in it.
pub data Says : Notice → Bool → Type 0 where
  starts : Says start_mm_timer true
  stops : Says stop_mm_timer false

hear_one :
    {n : Notice} {b : Bool}
    → Says n b
    → (p : ℕ) (f : Timers) (q : ℕ) → hear (send n p) f q ≡ (if p == q then b else f q)
hear_one Says.starts p f q = refl
hear_one Says.stops p f q = refl

-- Once told, a timer stays so while the others are told the same.
stays_told :
    {n : Notice} {b : Bool}
    → Says n b
    → (ps : List ℕ) (f : Timers) (q : ℕ) → f q ≡ b
    → hear_all (map (send n) ps) f q ≡ b
stays_told s [] f q h = h
stays_told s (p ∷ ps) f q h = stays_told s ps _ q (hear_one s p f q ∙ ground (arith, h))

-- Everybody hears a broadcast.
broadcast :
    {n : Notice} {b : Bool}
    → Says n b
    → (ps : List ℕ) (f : Timers) → All (λ (p : ℕ). hear_all (map (send n) ps) f p ≡ b) ps
broadcast s [] f = tt
broadcast s (p ∷ ps) f = (stays_told s ps _ p (hear_one s p f p ∙ ground arith), broadcast s ps _)

All-erase {κ} : (P : ℕ → Type κ) (p : ℕ) (ps : List ℕ) → All P ps → All P (erase p ps)
unfolding erase
All-erase P p [] a = tt
All-erase P p (q ∷ qs) a = elim (Bool-cases (q == p)) [
  | inl h ↦ rw h a.1
  | inr h ↦ rw h (a.0, All-erase P p qs a.1)
]

pub enter-Agrees :
    (now : ℕ) (r : Room) (f : Timers) (r' : Room) (es : List Effect)
    → room_enter_mm_queue now (some r) ≡ some (r', es)
    → Agrees r' (hear_all es f)
unfolding room_enter_mm_queue start_mm send_packet
enter-Agrees now r f r' es e = elim (Bool-cases (r.status == room_enqueue_mm)) [
  | inl h ↦
      subst (λ (o : Room × List Effect). Agrees o.0 (hear_all o.1 f)) (some_inj.0 (rw h at e))
        (rw h (broadcast Says.starts r.users f))
  | inr h ↦
      subst (λ (o : Room × List Effect). Agrees o.0 (hear_all o.1 f)) (some_inj.0 (rw h at e))
        (broadcast Says.starts r.users f)
]

pub leave-Agrees :
    (points : ℕ → ℕ) (now : ℕ) (r : Room) (f : Timers) (r' : Room) (es : List Effect)
    (log : Option LogRow)
    → Agrees r f
    → room_leave_mm_queue points now (some r) ≡ some (r', es, log)
    → Agrees r' (hear_all es f)
unfolding room_leave_mm_queue stop_mm send_packet
leave-Agrees points now r f r' es log a e = elim (Bool-cases (r.status == room_enqueue_mm)) [
  | inl h ↦
      subst (λ (o : Room × List Effect × Option LogRow). Agrees o.0 (hear_all o.1 f))
        (some_inj.0 (rw h at e)) (broadcast Says.stops r.users f)
  | inr h ↦
      subst (λ (o : Room × List Effect × Option LogRow). Agrees o.0 (hear_all o.1 f))
        (some_inj.0 (rw h at e)) a
]

without-users : (ps : List ℕ) (r : Room) → (without ps r).users ≡ ps
unfolding without is_empty
without-users [] r = refl
without-users (p ∷ ps) r = refl

pub remove-Agrees :
    (p : ℕ) (r : Room) (f : Timers)
    → Agrees r f
    → Agrees (remove_usr p r).0 (hear_all (remove_usr p r).1 f)
unfolding remove_usr
remove-Agrees p r f a = elim (Bool-cases (find p r.users)) [
  | inr away ↦ rw away a
  | inl there ↦ elim (Bool-cases (r.status == room_enqueue_mm)) [
    | inl h ↦
        rw (there, h)
          (rw (without-users (erase p r.users) r) (broadcast Says.stops (erase p r.users) f))
    | inr h ↦
        rw (there, h)
          (rw (without-users (erase p r.users) r)
            (All-erase (λ (q : ℕ). f q ≡ false) p r.users (rw h at a)))
  ]
]
