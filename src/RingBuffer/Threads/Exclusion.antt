-- ===== src/RingBuffer/Threads/Exclusion.antt =====
-- Between a decrement of the counter that gave 0 and its next step, a thread is alone.
use model_lib.Common.{
  ℕ, zero, suc, ◌+◌, ◌*◌, ◌≤◌, ◌<◌, ◌≡◌, refl, true, replicate, if◌then◌else◌, length, set, get_or,
  sum_by, sum_by-set, le-sum_by, sum_by_unique, sum_by_mono, arith, Bool-cases, ◌⊎◌, inl, inr,
}
use model_lib.Common.Int.{ℤ, pos, pos_part, neg_part, dec, is_zero, dec_parts, inc_parts}
use model_lib.RingBuffer.{RingBuffer, new_sized}
use model_lib.RingBuffer.Threads.{Pc, Shared, Move, System, Step, Reach}

abbrev pub active : Pc → ℕ
active Pc.idle = 0
active _ = 1

-- Has drawn 0 and not yet left the guarded part.
abbrev pub inside : Pc → ℕ
inside Pc.idle = 0
inside Pc.leave = 0
inside (Pc.got_push t v) = if is_zero v then 1 else 0
inside (Pc.got_pop v) = if is_zero v then 1 else 0
inside _ = 1

inside-le-active : (p : Pc) → inside p ≤ active p
inside-le-active p = ground arith

-- The counter starts at `k`; a thread at work takes 1 off, and a push that succeeded 2 for good.
pub record Inv (k : ℕ) (s : System) : Type 0 where
  pub balance :
      pos_part s.mem.buf.signal + sum_by active s.threads + 2 * s.mem.won
      ≡ k + neg_part s.mem.buf.signal
  pub alone : sum_by inside s.threads + s.mem.won ≤ k

Move-balance :
    {m m' : Shared} {p p' : Pc}
    → Move m p m' p'
    → pos_part m'.buf.signal + active p' + 2 * m'.won + neg_part m.buf.signal
      ≡ pos_part m.buf.signal + active p + 2 * m.won + neg_part m'.buf.signal
Move-balance {m} (Move.begin_push t) = omega (arith, dec_parts m.buf.signal)
Move-balance {m} Move.seal = omega (arith, dec_parts m.buf.signal)
Move-balance {m} Move.begin_pop = omega (arith, dec_parts m.buf.signal)
Move-balance {m} Move.release = omega (arith, inc_parts m.buf.signal)
Move-balance _ = omega arith

-- A draw of the counter's value: with 0 the thread is inside, with another value it is not.
draw :
    (v : ℤ) (won : ℕ)
    → ((if is_zero v then 1 else 0) + won ≤ 0 + won)
      ⊎ ((is_zero v ≡ true) × (won ≡ won) × (◌≡◌ {A = ℕ} 1 1))
draw v won = elim (Bool-cases (is_zero v)) [
  | inl e ↦ inr (e, refl, refl)
  | inr e ↦ inl (rw e (omega arith))
]

-- A thread comes inside only by drawing 0.
Move-inside :
    {m m' : Shared} {p p' : Pc}
    → Move m p m' p'
    → (inside p' + m'.won ≤ inside p + m.won)
      ⊎ ((is_zero m'.buf.signal ≡ true) × (m'.won ≡ m.won) × (active p' ≡ 1))
Move-inside {m} (Move.begin_push t) = draw (dec m.buf.signal) m.won
Move-inside {m} Move.begin_pop = draw (dec m.buf.signal) m.won
Move-inside (Move.enter_push e) = inl (ground arith)
Move-inside (Move.enter_pop e) = inl (ground arith)
Move-inside _ = inl (ground arith)

is_zero_parts : (v : ℤ) → is_zero v ≡ true → pos_part v + neg_part v ≡ 0
is_zero_parts v h = ground arith

-- Every move of a thread keeps the invariant.
pub Step-Inv : {k : ℕ} {s t : System} → k ≤ 1 → Step s t → Inv k s → Inv k t
Step-Inv {k} {s} small (Step.pick i {m} {p} lt mv) v = record { balance = balanced; alone = kept }
  where
    acts :
        sum_by active (set s.threads i p) + active (get_or s.threads i Pc.idle)
        ≡ sum_by active s.threads + active p
    acts = sum_by-set active s.threads i p Pc.idle lt

    ins :
        sum_by inside (set s.threads i p) + inside (get_or s.threads i Pc.idle)
        ≡ sum_by inside s.threads + inside p
    ins = sum_by-set inside s.threads i p Pc.idle lt

    balanced :
        pos_part m.buf.signal + sum_by active (set s.threads i p) + 2 * m.won
        ≡ k + neg_part m.buf.signal
    balanced = omega (arith, Move-balance mv, acts, v.balance)

    kept : sum_by inside (set s.threads i p) + m.won ≤ k
    kept = elim (Move-inside mv) [
      | inl calm ↦ omega (arith, calm, ins, v.alone)
      | inr (zero_drawn, same, busy) ↦ omega (
        arith,
        ins,
        acts,
        same,
        is_zero_parts m.buf.signal zero_drawn,
        balanced,
        v.alone,
        sum_by_mono inside active inside-le-active (set s.threads i p),
      )
    ]

pub Reach-Inv : {k : ℕ} {s t : System} → k ≤ 1 → Inv k s → Reach s t → Inv k t
Reach-Inv small v Reach.here = v
Reach-Inv small v (Reach.next r st) = Step-Inv small st (Reach-Inv small v r)

-- `n` threads, none of them in a call, over a buffer.
abbrev pub start : ℕ → RingBuffer → System
start n b = record { mem = record { buf = b; won = 0 }; threads = replicate n Pc.idle }

sum_by-replicate : (w : Pc → ℕ) (n : ℕ) → w Pc.idle ≡ 0 → sum_by w (replicate n Pc.idle) ≡ 0
sum_by-replicate w zero h = refl
sum_by-replicate w (suc n) h = omega (arith, h, sum_by-replicate w n h)

start-Inv : (n k : ℕ) (b : RingBuffer) → b.signal ≡ pos k → Inv k (start n b)
start-Inv n k b e = record {
  balance = rw e (omega (arith, sum_by-replicate active n refl));
  alone = omega (arith, sum_by-replicate inside n refl);
}

abbrev pub thread : System → ℕ → Pc
thread s i = get_or s.threads i Pc.idle

-- Over a buffer with the counter at 1, no two threads are ever in the guarded part of `push` or `pop`
-- together, in whatever order `n` threads make their moves.
pub mutual_exclusion :
    (n : ℕ) (b : RingBuffer) {s : System}
    → b.signal ≡ pos 1
    → Reach (start n b) s
    → (i j : ℕ) → i < length s.threads
    → j < length s.threads
    → inside (thread s i) ≡ 1
    → inside (thread s j) ≡ 1
    → i ≡ j
mutual_exclusion n b {s} e r i j hi hj in_i in_j =
    sum_by_unique inside s.threads i j Pc.idle (omega (arith, v.alone)) hi hj in_i in_j
  where
    v : Inv 1 s
    v = Reach-Inv (omega arith) (start-Inv n 1 b e) r

-- And one push at most returns true in the whole run: once it has, no thread is ever inside again.
one_push_wins :
    (n : ℕ) (b : RingBuffer) {s : System}
    → b.signal ≡ pos 1
    → Reach (start n b) s
    → (s.mem.won ≤ 1) × (s.mem.won ≡ 1 → (i : ℕ) → i < length s.threads → inside (thread s i) ≡ 0)
one_push_wins n b {s} e r = (
  omega (arith, v.alone),
  λ w i hi. omega (arith, v.alone, le-sum_by inside s.threads i Pc.idle hi),
)
  where
    v : Inv 1 s
    v = Reach-Inv (omega arith) (start-Inv n 1 b e) r

-- Over a buffer of the sized constructor no thread ever gets past the test, and no push returns true.
sized_never_opens :
    (n size : ℕ) {s : System}
    → Reach (start n (new_sized size)) s
    → (s.mem.won ≡ 0) × ((i : ℕ) → i < length s.threads → inside (thread s i) ≡ 0)
unfolding new_sized
sized_never_opens n size {s} r = (
  omega (arith, v.alone),
  λ i hi. omega (arith, v.alone, le-sum_by inside s.threads i Pc.idle hi),
)
  where
    v : Inv 0 s
    v = Reach-Inv (omega arith) (start-Inv n 0 (new_sized size) refl) r
