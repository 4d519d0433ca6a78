-- ===== src/RingBuffer/Sealed.antt =====
-- What a `SafeRingBuffer` answers over any sequence of calls, one after another.
use model_lib.Common.{
  ℕ, ◌≤◌, ◌<◌, ◌≡◌, refl, ap, Bool, true, false, List, [], ◌∷◌, arith, length, ◌++◌,
  take-set_append, take-suc, ◌-◌, replicate,
}
use model_lib.Common.Int.{pos, dec, is_zero, inc-dec}
use model_lib.RingBuffer.{RingBuffer, new_sized, new_buffer, resize, push, pop, clear}

pub data Call : Type 0 where
  pushes : ℕ → Call
  pops : Call

pub data Answer : Type 0 where
  pushed : Bool → Answer
  popped : ℕ → Answer

abbrev pub call : Call → RingBuffer → RingBuffer × Answer
call (pushes t) b = let (b', done) = push t b in (b', pushed done)
call pops b = let (b', t) = pop b in (b', popped t)

abbrev pub calls : List Call → RingBuffer → RingBuffer × List Answer
calls [] b = (b, [])
calls (c ∷ cs) b = let (b', a) = call c b in let (b'', as') = calls cs b' in (b'', a ∷ as')

-- The answer of a buffer whose guard does not open: a push is refused, a pop gives null.
abbrev pub refusal : Call → Answer
refusal (pushes t) = pushed false
refusal pops = popped 0

abbrev pub refusals : List Call → List Answer
refusals [] = []
refusals (c ∷ cs) = refusal c ∷ refusals cs

-- The guard opens for the caller only where the counter stands at 1.
abbrev pub IsShut : RingBuffer → Type 0
IsShut b = is_zero (dec b.signal) ≡ false

call-refusal : (c : Call) (b : RingBuffer) → IsShut b → call c b ≡ (b, refusal c)
unfolding push pop
call-refusal (pushes t) b h = ground (arith, inc-dec b.signal)
call-refusal pops b h = ground (arith, inc-dec b.signal)

calls-refusals : (cs : List Call) (b : RingBuffer) → IsShut b → calls cs b ≡ (b, refusals cs)
calls-refusals [] b h = refl
calls-refusals (c ∷ cs) b h = rw (call-refusal c b h) (rw (calls-refusals cs b h))

push_shuts : (t : ℕ) (b : RingBuffer) → (push t b).1 ≡ true → IsShut (push t b).0
unfolding push
push_shuts t b done = ground arith

-- After a push that succeeded every later push is refused, every later pop gives null, and nothing
-- changes any more: `push` leaves the counter at -1, where its guard and that of `pop` stay shut.
push-calls :
    (t : ℕ) (b : RingBuffer) (cs : List Call)
    → (push t b).1 ≡ true
    → calls cs (push t b).0 ≡ ((push t b).0, refusals cs)
push-calls t b cs done = calls-refusals cs (push t b).0 (push_shuts t b done)

-- A buffer made by the sized constructor starts at 0: it never accepts a pointer and never gives one,
-- also after a call of `size`.
new_sized-calls :
    (n : ℕ) (cs : List Call)
    → (calls cs (new_sized n) ≡ (new_sized n, refusals cs))
      × ((m : ℕ) → calls cs (resize m (new_sized n)) ≡ (resize m (new_sized n), refusals cs))
unfolding new_sized resize
new_sized-calls n cs = (
  calls-refusals cs (new_sized n) refl,
  λ m. calls-refusals cs (resize m (new_sized n)) (ground arith),
)

-- What such a buffer answers over its whole life: null to each pop, and true to the first
-- push alone.
abbrev pub one_shot : List Call → List Answer
one_shot [] = []
one_shot (pops ∷ cs) = popped 0 ∷ one_shot cs
one_shot (pushes t ∷ cs) = pushed true ∷ refusals cs

-- A buffer as `Start` leaves it.
abbrev fresh : ℕ → RingBuffer
fresh n = record { slots = replicate n 0; signal = pos 1; size = n; cur = 0 }

resize-fresh : (n : ℕ) → 0 < n → resize n new_buffer ≡ fresh n
unfolding resize new_buffer
resize-fresh n h = ground arith

pop-fresh : (n : ℕ) → pop (fresh n) ≡ (fresh n, 0)
unfolding pop
pop-fresh n = refl

push-fresh : (t n : ℕ) → 0 < n → (push t (fresh n)).1 ≡ true
unfolding push
push-fresh t n h = ground arith

calls-fresh : (n : ℕ) (cs : List Call) → 0 < n → (calls cs (fresh n)).1 ≡ one_shot cs
calls-fresh n [] h = refl
calls-fresh n (pops ∷ cs) h = rw (pop-fresh n) (ap (◌∷◌ (popped 0)) (calls-fresh n cs h))
calls-fresh n (pushes t ∷ cs) h =
    rw (push-calls t (fresh n) cs (push-fresh t n h), push-fresh t n h)

-- A buffer that was made by the default constructor and given a size answers so, to every sequence of
-- calls: it keeps one pointer at most and never hands one back.
pub calls-one_shot :
    (n : ℕ) (cs : List Call) → 0 < n → (calls cs (resize n new_buffer)).1 ≡ one_shot cs
calls-one_shot n cs h = rw (resize-fresh n h) (calls-fresh n cs h)

-- With the counter at 1 and room left, `push` stores the pointer behind those that the buffer holds.
push-stores :
    (t : ℕ) (b : RingBuffer)
    → b.signal ≡ pos 1
    → length b.slots ≡ b.size
    → b.cur < b.size
    → ((push t b).1 ≡ true) × (clear (push t b).0 ≡ clear b ++ t ∷ [])
unfolding push clear
push-stores t b open_guard sized room =
    (ground arith, ground (arith, take-set_append b.slots b.cur t))

-- With the counter at 1 and a pointer in the buffer, `pop` takes the last one and leaves the counter at 1.
pop-takes :
    (b : RingBuffer)
    → b.signal ≡ pos 1
    → b.cur ≤ length b.slots
    → 0 < b.cur
    → (clear b ≡ clear (pop b).0 ++ (pop b).1 ∷ []) × ((pop b).0.signal ≡ pos 1)
unfolding pop clear
pop-takes b open_guard fits held = (ground (arith, take-suc b.slots (b.cur - 1) 0), ground arith)
