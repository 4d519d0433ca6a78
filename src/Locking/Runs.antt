-- ===== src/Locking/Runs.antt =====
-- Runs of threads to their end.
use model_lib.Common.{
  ℕ, zero, suc, ◌+◌, ◌≤◌, ◌<◌, ◌≡◌, refl, ap, inl, inr, Bool, List, [], ◌∷◌, length, arith,
}
use model_lib.Locking.{Call, Hold, Thread, Next, after, update, Step, Steps}
use model_lib.Locking.Exclusion.{Inv, Step-Inv, update-cases}
use model_lib.Locking.Finishing.{goes_on}

-- The calls that are left to `n` threads.
abbrev pub left : ℕ → (ℕ → Thread) → ℕ
left zero s = 0
left (suc n) s = length (s n).rest + left n s

left-update :
    (n : ℕ) (s : ℕ → Thread) (i : ℕ) (t : Thread)
    → suc (length t.rest) ≡ length (s i).rest
    → (i < n → suc (left n (update s i t)) ≡ left n s) × (n ≤ i → left n (update s i t) ≡ left n s)
left-update zero s i t e = ((λ h. absurd (omega arith)), λ h. refl)
left-update (suc n) s i t e =
    let (in_it, out) = left-update n s i t e in
    elim (update-cases s i t n) [
      | inl (at, new) ↦
          let rest = out (omega (arith, at)) in
          let here : suc (length (update s i t n).rest) ≡ length (s n).rest = rw new (rw at at e) in
          ((λ h. omega (arith, here, rest)), λ h. absurd (omega (arith, at)))
      | inr (off, old) ↦
          let same : length (update s i t n).rest ≡ length (s n).rest = rw old refl in
          (
            (λ h. omega (arith, same, in_it (omega arith))),
            λ h. omega (arith, same, out (omega arith)),
          )
    ]

after-shorter :
    (prefers : Bool) (s : ℕ → Thread) (held : List Hold) (rest : List Call)
    → Next prefers s rest
    → suc (length (after (record { held = held; rest = rest })).rest) ≡ length rest
unfolding after
after-shorter prefers s held [] r = elim r [ ]
after-shorter prefers s held (Call.acquire side m ∷ cs) r = refl
after-shorter prefers s held (Call.touch side l ∷ cs) r = refl
after-shorter prefers s held (Call.release ∷ cs) r = refl

Step-left :
    {prefers : Bool} {n : ℕ} {s t : ℕ → Thread} → Step prefers n s t → suc (left n t) ≡ left n s
Step-left {prefers} {n} {s} (Step.pick i lt ready) =
    (left-update n s i (after (s i)) (after-shorter prefers s (s i).held (s i).rest ready)).0 lt

-- A run makes no more calls than there are.
pub Steps-left :
    {prefers : Bool} {n : ℕ} {s : ℕ → Thread} {k : ℕ} {t : ℕ → Thread}
    → Steps prefers n s k t
    → k + left n t ≡ left n s
Steps-left (Steps.here s) = omega arith
Steps-left (Steps.first st ss) = omega (arith, Step-left st, Steps-left ss)

left-finished : (n : ℕ) (s : ℕ → Thread) → ((i : ℕ) → (s i).rest ≡ []) → left n s ≡ 0
left-finished zero s f = refl
left-finished (suc n) s f = omega (arith, ap length (f n), left-finished n s f)

-- However a run has gone so far, it can be brought to its end, where all threads have finished.
pub finishes :
    (k : ℕ) (prefers : Bool) (n : ℕ) (s : ℕ → Thread)
    → Inv n s
    → left n s ≡ k
    → (t : ℕ → Thread) × Steps prefers n s k t × ((i : ℕ) → (t i).rest ≡ [])
finishes zero prefers n s v e = elim (goes_on prefers n s v) [
  | inl done ↦ (s, Steps.here s, done)
  | inr (j, lt, ready) ↦
      let st : Step prefers n s (update s j (after (s j))) = Step.pick j lt ready in
      absurd (omega (arith, e, Step-left st))
]
finishes (suc k) prefers n s v e = elim (goes_on prefers n s v) [
  | inl done ↦ absurd (omega (arith, e, left-finished n s done))
  | inr (j, lt, ready) ↦
      let st : Step prefers n s (update s j (after (s j))) = Step.pick j lt ready in
      let (t, ss, done) =
        finishes k prefers n (update s j (after (s j))) (Step-Inv v st)
          (omega (arith, e, Step-left st)) in
      (t, Steps.first st ss, done)
]
