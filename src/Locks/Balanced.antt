-- ===== src/Locks/Balanced.antt =====
-- A guard gives back what it took.
use model_lib.Common.{
  ℕ, zero, suc, ◌≡◌, refl, Bool, true, false, List, [], ◌∷◌, ◌++◌, Bool-cases, inl, inr,
  if◌then◌else◌,
}
use model_lib.Locks.{Side, Call, locks, unlocks, Guard, new_lock, new_timed, unlock, destroy}

-- So many calls of `unlock`.
abbrev pub unlock_times : ℕ → Guard → Guard
unlock_times zero g = g
unlock_times (suc n) g = unlock_times n (unlock g)

-- What a guard does to the mutex over its life.
abbrev pub life : Side → Bool → List Call
life side true = locks side ∷ unlocks side ∷ []
life side false = []

unlocked_calls :
    (n : ℕ) (g : Guard)
    → (destroy (unlock_times n g)).calls
      ≡ (if g.owns then g.calls ++ unlocks g.side ∷ [] else g.calls)
unfolding destroy unlock
unlocked_calls zero g = elim (Bool-cases g.owns) [ inl e ↦ simp e refl | inr e ↦ simp e refl ]
unlocked_calls (suc n) g = elim (Bool-cases g.owns) [
  | inl e ↦
      simp e (unlocked_calls n (record g { owns = false; calls = g.calls ++ unlocks g.side ∷ [] }))
  | inr e ↦ simp e (simp e at (unlocked_calls n g))
]

-- However often a guard is unlocked before its end, the mutex is locked once and unlocked once, on the side of the
-- guard; a timed guard that did not get the lock never touches it.
guard-life :
    (side : Side) (n : ℕ)
    → ((destroy (unlock_times n (new_lock side))).calls ≡ life side true)
      × ((got : Bool) → (destroy (unlock_times n (new_timed side got))).calls ≡ life side got)
unfolding new_lock new_timed
guard-life side n = (unlocked_calls n (new_lock side), timed)
  where
    timed : (got : Bool) → (destroy (unlock_times n (new_timed side got))).calls ≡ life side got
    timed true = unlocked_calls n (new_timed side true)
    timed false = unlocked_calls n (new_timed side false)
