-- ===== src/Locks.antt =====
-- src/VCommon/VCommonDefines.h: `VWriteLock` and `VReadLock`, guards over a `shared_mutex`, and their timed kinds. What a
-- guard does to the mutex is a list of calls; boost's guard unlocks in its destructor if it owns the lock.
pub mod Balanced
use model_lib.Common.{ℕ, zero, suc, Bool, true, false, List, [], ◌∷◌, ◌++◌, if◌then◌else◌}

-- The calls of a write lock are on the exclusive side and those of a read lock on the shared side.
pub data Side : Type 0 where
  exclusive shared : Side

pub data Call : Type 0 where
  locks : Side → Call
  unlocks : Side → Call

pub record Guard : Type 0 where
  pub side : Side
  pub owns : Bool
  pub calls : List Call

-- `VWriteLock(m)` and `VReadLock(m)`
unfoldable pub new_lock : Side → Guard
new_lock side = record { side = side; owns = true; calls = locks side ∷ [] }

-- With a limit of `ms` milliseconds: `got` is whether the lock was had in time.
unfoldable pub new_timed : Side → Bool → Guard
new_timed side got = record { side = side; owns = got; calls = if got then locks side ∷ [] else [] }

-- if (owns_lock()) BaseClass::unlock()
unfoldable pub unlock : Guard → Guard
unlock g = if g.owns then record g { owns = false; calls = g.calls ++ unlocks g.side ∷ [] } else g

-- The destructor of boost's guard.
unfoldable pub destroy : Guard → Guard
unfolding unlock
destroy g = unlock g
