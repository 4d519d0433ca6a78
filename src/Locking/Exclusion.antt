-- ===== src/Locking/Exclusion.antt =====
-- What holds in every state of the threads: a guard on the exclusive side is alone.
use model_lib.Common.{
  ℕ, ◌≤◌, ◌<◌, ◌≡◌, ◌≢◌, refl, sym, ap, ◌∙◌, ◌⊎◌, inl, inr, Bool, some, List, [], ◌∷◌, ==_refl,
  ==_ne, arith, ℕ_discrete,
}
use mathlib.Core.Path.{subst}
use model_lib.Locks.{Side, exclusive, shared}
use model_lib.Locking.{
  Next, Mutex, Location, Call, Hold, Thread, Covers, Holds, against, Wants, Ready, after, update,
  Step, Steps,
}
use model_lib.Locking.Ordered.{guard_of, Guarded, Follows, after-Follows}

pub record Inv (n : ℕ) (s : ℕ → Thread) : Type 0 where
  pub follows : (i : ℕ) → Follows (s i).held (s i).rest
  pub alone :
      (i j : ℕ) (m : Mutex) → i ≢ j → Holds (s i).held exclusive m → ¬ Holds (s j).held shared m
  pub beyond : (i : ℕ) → n ≤ i → (s i).rest ≡ []

Covers-shared : (side : Side) → Covers side shared
Covers-shared exclusive = tt
Covers-shared shared = tt

pub Holds-shared :
    (held : List Hold) (side : Side) (m : Mutex) → Holds held side m → Holds held shared m
Holds-shared [] side m h = elim h [ ]
Holds-shared (h ∷ hs) side m (inl (e, c)) = inl (e, Covers-shared h.side)
Holds-shared (h ∷ hs) side m (inr k) = inr (Holds-shared hs side m k)

-- After a call a thread has the guards that it had, and the one that it asked for.
after-Holds :
    (held : List Hold) (rest : List Call) (side : Side) (m : Mutex)
    → Holds (after (record { held = held; rest = rest })).held side m
    → Holds held side m
      ⊎ ((got : Side) × Covers got side × Wants (record { held = held; rest = rest }) got m)
unfolding after
after-Holds held [] side m h = inl h
after-Holds held (Call.acquire got m' ∷ cs) side m (inl (e, c)) =
    inr (got, c, (cs, ap (λ (x : Mutex). Call.acquire got x ∷ cs) e))
after-Holds held (Call.acquire got m' ∷ cs) side m (inr h) = inl h
after-Holds held (Call.touch got l ∷ cs) side m h = inl h
after-Holds [] (Call.release ∷ cs) side m h = elim h [ ]
after-Holds (x ∷ held) (Call.release ∷ cs) side m h = inl (inr h)

-- A lock that can be had is not held against it.
Ready-free :
    (prefers : Bool) (s : ℕ → Thread) (t : Thread) (side : Side) (m : Mutex)
    → Ready prefers s t
    → Wants t side m
    → (j : ℕ) → ¬ Holds (s j).held (against side) m
Ready-free prefers s t side m ready (cs, e) = (subst (Next prefers s) e ready).0

pub update-cases :
    (s : ℕ → Thread) (i : ℕ) (t : Thread) (j : ℕ)
    → ((i ≡ j) × (update s i t j ≡ t)) ⊎ ((i ≢ j) × (update s i t j ≡ s j))
update-cases s i t j = elim (ℕ_discrete i j) [
  | yes e ↦ inl (e, rw e (rw (==_refl j) refl))
  | no ne ↦ inr (ne, rw (==_ne i j ne) refl)
]

module _ (prefers : Bool) (n : ℕ) (s : ℕ → Thread) (v : Inv n s) (i : ℕ)
    (ready : Ready prefers s (s i)) where
  -- The thread that went on gets no exclusive guard that another has, and none that another has exclusively.
  after_alone :
      (j : ℕ) (m : Mutex)
      → i ≢ j
      → Holds (after (s i)).held exclusive m
      → ¬ Holds (s j).held shared m
  after_alone j m ne h k = elim (after-Holds (s i).held (s i).rest exclusive m h) [
    | inl had ↦ v.alone i j m ne had k
    | inr (exclusive, c, w) ↦ Ready-free prefers s (s i) exclusive m ready w j k
    | inr (shared, c, w) ↦ elim c [ ]
  ]

  alone_after :
      (j : ℕ) (m : Mutex)
      → i ≢ j
      → Holds (s j).held exclusive m
      → ¬ Holds (after (s i)).held shared m
  alone_after j m ne h k = elim (after-Holds (s i).held (s i).rest shared m k) [
    | inl had ↦ v.alone j i m (λ e. ne (sym e)) h had
    | inr (exclusive, c, w) ↦
        Ready-free prefers s (s i) exclusive m ready w j (Holds-shared (s j).held exclusive m h)
    | inr (shared, c, w) ↦ Ready-free prefers s (s i) shared m ready w j h
  ]

  alone_still :
      (j k : ℕ) (m : Mutex)
      → j ≢ k
      → Holds (update s i (after (s i)) j).held exclusive m
      → ¬ Holds (update s i (after (s i)) k).held shared m
  alone_still j k m ne h l = elim (update-cases s i (after (s i)) j) [
    | inl (at_j, new) ↦ elim (update-cases s i (after (s i)) k) [
      | inl (at_k, _) ↦ ne (sym at_j ∙ at_k)
      | inr (off_k, old) ↦ after_alone k m off_k (rw new at h) (rw old at l)
    ]
    | inr (off_j, old) ↦ elim (update-cases s i (after (s i)) k) [
      | inl (at_k, new) ↦ alone_after j m off_j (rw old at h) (rw new at l)
      | inr (off_k, same) ↦ v.alone j k m ne (rw old at h) (rw same at l)
    ]
  ]

  pick-Inv : i < n → Inv n (update s i (after (s i)))
  pick-Inv lt = record {
    follows = λ j. elim (update-cases s i (after (s i)) j) [
      | inl (e, new) ↦ rw new (after-Follows (s i).held (s i).rest (v.follows i))
      | inr (ne, old) ↦ rw old (v.follows j)
    ];
    alone = alone_still;
    beyond = λ j above. elim (update-cases s i (after (s i)) j) [
      | inl (e, new) ↦ absurd (omega (arith, e))
      | inr (ne, old) ↦ rw old (v.beyond j above)
    ];
  }

pub Step-Inv : {prefers : Bool} {n : ℕ} {s t : ℕ → Thread} → Inv n s → Step prefers n s t → Inv n t
Step-Inv {prefers} {n} {s} v (Step.pick i lt ready) = pick-Inv prefers n s v i ready lt

pub Steps-Inv :
    {prefers : Bool} {n : ℕ} {s : ℕ → Thread} {k : ℕ} {t : ℕ → Thread}
    → Inv n s
    → Steps prefers n s k t
    → Inv n t
Steps-Inv v (Steps.here s) = v
Steps-Inv v (Steps.first st ss) = Steps-Inv (Step-Inv v st) ss

-- The next call of a thread is this access.
abbrev pub Touches : Thread → Side → Location → Type 0
Touches t side l = (cs : List Call) × (t.rest ≡ Call.touch side l ∷ cs)

Touches-Guarded :
    (t : Thread) (side : Side) (l : Location)
    → Follows t.held t.rest
    → Touches t side l
    → Guarded t.held side (guard_of l)
Touches-Guarded t side l f (cs, e) = (subst (Follows t.held) e f).0

pub no_race_at :
    (n : ℕ) (s : ℕ → Thread) (i j : ℕ) (side : Side) (l : Location) (m : Mutex)
    → Inv n s
    → guard_of l ≡ some m
    → i ≢ j
    → Touches (s i) exclusive l
    → ¬ Touches (s j) side l
no_race_at n s i j side l m v e ne w r =
    let has =
      subst (Guarded (s i).held exclusive) e (Touches-Guarded (s i) exclusive l (v.follows i) w) in
    let other = subst (Guarded (s j).held side) e (Touches-Guarded (s j) side l (v.follows j) r) in
    v.alone i j m ne has (Holds-shared (s j).held side m other)
