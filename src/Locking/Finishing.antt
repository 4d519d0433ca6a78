-- ===== src/Locking/Finishing.antt =====
-- Threads that follow the order of the mutexes finish: one can go on until all have, and each call is made once.
use model_lib.Common.{
  ℕ, suc, ◌≤◌, ◌<◌, ◌≡◌, ◌≢◌, refl, sym, ap, ◌⊎◌, inl, inr, Bool, List, [], ◌∷◌, arith, ℕ_discrete,
  dec_lt, scan, greatest,
}
use mathlib.Core.Path.{subst}
use model_lib.Locks.{Side, exclusive, shared}
use model_lib.Locking.{Mutex, Call, Hold, Thread, Holds, Wants, Ready, Next}
use model_lib.Locking.Ordered.{Follows, Below}
use model_lib.Locking.Exclusion.{Inv, Holds-shared}

-- A thread that has finished or waits for a mutex.
abbrev Waits : List Call → Type 0
Waits cs =
    (cs ≡ [])
    ⊎ ((side : Side) × (m : Mutex) × (rest : List Call) × (cs ≡ Call.acquire side m ∷ rest))

acts_or_Waits : (prefers : Bool) (s : ℕ → Thread) (cs : List Call) → Next prefers s cs ⊎ Waits cs
acts_or_Waits prefers s [] = inr (inl refl)
acts_or_Waits prefers s (Call.acquire side m ∷ cs) = inr (inr (side, m, cs, refl))
acts_or_Waits prefers s (Call.touch side l ∷ cs) = inl tt
acts_or_Waits prefers s (Call.release ∷ cs) = inl tt

Mutex-cases : (m m' : Mutex) → (m ≡ m') ⊎ (m ≢ m')
Mutex-cases m m' = elim (ℕ_discrete m.rank m'.rank) [
  | no ne ↦ inr λ e. ne (ap (λ (x : Mutex). x.rank) e)
  | yes e ↦ elim (ℕ_discrete m.number m'.number) [
    | no ne ↦ inr λ e. ne (ap (λ (x : Mutex). x.number) e)
    | yes e' ↦ inl λ i. record { rank = e i; number = e' i }
  ]
]

wants_or_not :
    (cs : List Call) (m : Mutex)
    → ((rest : List Call) × (cs ≡ Call.acquire exclusive m ∷ rest))
      ⊎ ¬ ((rest : List Call) × (cs ≡ Call.acquire exclusive m ∷ rest))
wants_or_not [] m = inr λ w. cc (w.1)
wants_or_not (Call.acquire shared m' ∷ cs) m = inr λ w. cc (w.1)
wants_or_not (Call.touch side l ∷ cs) m = inr λ w. cc (w.1)
wants_or_not (Call.release ∷ cs) m = inr λ w. cc (w.1)
wants_or_not (Call.acquire exclusive m' ∷ cs) m = elim (Mutex-cases m' m) [
  | inl e ↦ inl (cs, ap (λ (x : Mutex). Call.acquire exclusive x ∷ cs) e)
  | inr ne ↦ inr λ w. ne (cc (w.1))
]

-- The rank of the mutex that is asked for, from 1 on.
abbrev asked : List Call → ℕ
asked (Call.acquire side m ∷ cs) = suc m.rank
asked _ = 0

Holds-Below :
    (held : List Hold) (side : Side) (m : Mutex) (rank : ℕ)
    → Below rank held
    → Holds held side m
    → m.rank < rank
Holds-Below [] side m rank below h = elim h [ ]
Holds-Below (x ∷ held) side m rank below (inl (e, c)) = rw (sym e) below.0
Holds-Below (x ∷ held) side m rank below (inr h) = Holds-Below held side m rank below.1 h

-- What a thread that waits holds comes before what it asks for, and one that has finished holds nothing.
Waits-Holds :
    (t : Thread) (m : Mutex)
    → Follows t.held t.rest
    → Waits t.rest
    → Holds t.held shared m
    → suc m.rank < asked t.rest
Waits-Holds t m f (inl e) h =
    absurd (subst (λ (held : List Hold). Holds held shared m) (rw e at f) h)
Waits-Holds t m f (inr (side, m', cs, e)) h = rw e (
    let below : Below m'.rank t.held = (subst (Follows t.held) e f).0 in
    omega (arith, Holds-Below t.held shared m m'.rank below h))

module _ (prefers : Bool) (n : ℕ) (s : ℕ → Thread) (v : Inv n s)
    (waiting : (i : ℕ) → i < n → Waits (s i).rest) where
  all_wait : (j : ℕ) → Waits (s j).rest
  all_wait j = elim (dec_lt j n) [ yes h ↦ waiting j h | no h ↦ inl (v.beyond j (omega arith)) ]

  -- Nobody holds a mutex of the highest rank that is asked for.
  highest_free :
      (m : Mutex)
      → ((j : ℕ) → asked (s j).rest ≤ suc m.rank)
      → (j : ℕ) → ¬ Holds (s j).held shared m
  highest_free m most j h = omega (arith, most j, Waits-Holds (s j) m (v.follows j) (all_wait j) h)

  asked-most :
      (i : ℕ)
      → ((j : ℕ) → j < n → asked (s j).rest ≤ asked (s i).rest)
      → (j : ℕ) → asked (s j).rest ≤ asked (s i).rest
  asked-most i most j = elim (dec_lt j n) [
    | yes h ↦ most j h
    | no h ↦ let e = v.beyond j (omega arith) in rw e (omega arith)
  ]

  -- A thread that asks for such a mutex gets it, but for a reader, where a writer that waits goes first.
  highest_goes :
      (i : ℕ) (side : Side) (m : Mutex)
      → i < n
      → Wants (s i) side m
      → ((j : ℕ) → asked (s j).rest ≤ suc m.rank)
      → (j : ℕ) × (j < n) × Ready prefers s (s j)
  highest_goes i side m lt w most =
      elim (scan (λ j. Wants (s j) exclusive m) (λ j. ¬ Wants (s j) exclusive m) n
        (λ j. wants_or_not (s j).rest m)) [
          | inl (j, below, (cs, e)) ↦
              (j, below, subst (Next prefers s) (sym e) (highest_free m most, λ p k. cc))
          | inr none_writes ↦ (i, lt, reader side w none_writes)
        ]
    where
      reader :
          (side : Side)
          → Wants (s i) side m
          → ((j : ℕ) → j < n → ¬ Wants (s j) exclusive m)
          → Ready prefers s (s i)
      reader exclusive w none_writes = absurd (none_writes i lt w)
      reader shared (cs, e) none_writes = subst (Next prefers s) (sym e) (
        λ j h. highest_free m most j (Holds-shared (s j).held exclusive m h),
        λ p k j w. elim (dec_lt j n) [
          | yes below ↦ none_writes j below w
          | no above ↦ let done = v.beyond j (omega arith) in cc (w.1, done)
        ],
      )

  -- If threads wait, one of them can go on, or all have finished.
  one_goes : ((i : ℕ) → (s i).rest ≡ []) ⊎ ((j : ℕ) × (j < n) × Ready prefers s (s j))
  one_goes =
      let (i, lt, most) = greatest (λ j. asked (s j).rest) n in
      let all_most = asked-most i (λ j h. most j (omega arith)) in
      elim (all_wait i) [
        | inl e ↦ inl λ j. nothing_asked j (rw e at (all_most j))
        | inr (side, m, cs, e) ↦
            inr (highest_goes i side m (within i side m cs e) (cs, e) (λ j. rw e at (all_most j)))
      ]
    where
      nothing_asked : (j : ℕ) → asked (s j).rest ≤ 0 → (s j).rest ≡ []
      nothing_asked j none_asked = elim (all_wait j) [
        | inl e ↦ e
        | inr (side, m, cs, e) ↦
            let some_asked : suc m.rank ≤ 0 = rw e at none_asked in absurd (omega arith)
      ]

      within :
          (i : ℕ) (side : Side) (m : Mutex) (cs : List Call)
          → (s i).rest ≡ Call.acquire side m ∷ cs
          → i < n
      within i side m cs e = elim (dec_lt i n) [
        | yes h ↦ h
        | no h ↦ let done = v.beyond i (omega arith) in cc (e, done)
      ]

-- So long as not all have finished, one can go on.
pub goes_on :
    (prefers : Bool) (n : ℕ) (s : ℕ → Thread)
    → Inv n s
    → ((i : ℕ) → (s i).rest ≡ []) ⊎ ((j : ℕ) × (j < n) × Ready prefers s (s j))
goes_on prefers n s v =
    elim (scan (λ i. Ready prefers s (s i)) (λ i. Waits (s i).rest) n
      (λ i. acts_or_Waits prefers s (s i).rest)) [
        | inl ready ↦ inr ready
        | inr waiting ↦ one_goes prefers n s v waiting
      ]
