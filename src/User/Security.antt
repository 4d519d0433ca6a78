-- ===== src/User/Security.antt =====
-- src/VNetWork/VUser.cpp, `CheckSecurity`: which packets a user accepts, and in which order.
use model_lib.Common.{
  ℕ, ◌+◌, ◌%◌, ◌^◌, ◌≤◌, ◌<◌, ◌≡◌, refl, ◌⊎◌, inl, inr, true, false, Option, some, ◌>>=◌, List, [],
  ◌∷◌, length, take, arith, if◌then◌else◌,
}
use native.Mathlib.Nat.{le_refl}
use native.Mathlib.Decide.{ℕ_discrete}
use model_lib.Crc.{get_crc}
use model_lib.User.{User, check_security, init_secret_key}
use model_lib.User.SecretKey.{init_table}
use model_lib.User.Serial.{serial_crc, IsBytes, get_crc-serial}

-- A user whose table is the one of its key, as after `InitSecretKey`.
pub record HasKey (u : User) : Type 0 where
  pub table : List ℕ
  pub sized : length table ≡ 256
  pub filled : u.crc_table ≡ init_table u.key table
  pub in_range : u.seq < 2 ^ 32

-- `InitSecretKey` restarts the sequence, sets the key and fills the table for it, and leaves the state
-- and the session of the user alone.
pub init_secret_key-HasKey :
    (key : ℕ) (u : User)
    → length u.crc_table ≡ 256
    → HasKey (init_secret_key key u)
      × ((init_secret_key key u).seq ≡ 0)
      × ((init_secret_key key u).key ≡ key)
      × ((init_secret_key key u).state ≡ u.state)
      × ((init_secret_key key u).session ≡ u.session)
unfolding init_secret_key
init_secret_key-HasKey key u size = (
  record { table = u.crc_table; sized = size; filled = refl; in_range = omega arith },
  refl,
  refl,
  refl,
  refl,
)

-- What makes a packet acceptable: the expected sequence number, and the CRC of a body that is not empty.
abbrev pub Acceptable : User → ℕ → ℕ → List ℕ → ℕ → Type 0
Acceptable u crc seq buff len =
    (seq ≡ u.seq) × ((len ≡ 0) ⊎ (crc ≡ serial_crc u.key u.key (take len buff)))

module _ (u : User) (crc seq len : ℕ) (buff : List ℕ) where
  -- With the key's table and a body that is all there, the check never faults.
  pub check_security-cases :
      HasKey u
      → len ≤ length buff
      → IsBytes buff
      → (Acceptable u crc seq buff len
          × (check_security crc seq buff len u
              ≡ some (record u { seq = (u.seq + 1) % 2 ^ 32 }, true)))
        ⊎ ((¬ Acceptable u crc seq buff len)
            × (check_security crc seq buff len u ≡ some (u, false)))
  unfolding check_security
  check_security-cases k fits bytes = elim (ℕ_discrete seq u.seq) [
    | no other ↦ inr (λ a. other a.0, ground arith)
    | yes e ↦ elim (ℕ_discrete len 0) [
      | yes z ↦ inl ((e, inl z), ground arith)
      | no body ↦ elim (ℕ_discrete crc (serial_crc u.key u.key (take len buff))) [
        | yes c ↦ inl ((e, inr c), ground (arith, computed))
        | no bad ↦ inr (λ a. elim a.1 [ inl z ↦ body z | inr c ↦ bad c ], ground (arith, computed))
      ]
    ]
  ]
    where
      computed : get_crc u.key buff len u.crc_table ≡ some (serial_crc u.key u.key (take len buff))
      computed = rw k.filled (get_crc-serial u.key u.key len buff k.table k.sized fits bytes)

-- What arrives for one user: the header's crc and sequence number, and the body.
pub record Packet : Type 0 where
  pub crc : ℕ
  pub seq : ℕ
  pub body : List ℕ

-- The packets that a user accepts out of a history, and the user afterwards.
abbrev pub accepted : User → List Packet → Option (User × List Packet)
accepted u [] = some (u, [])
accepted u (p ∷ ps) = do
  (u', taken) ← check_security p.crc p.seq p.body (length p.body) u
  (v, qs) ← accepted u' ps
  some (v, if taken then p ∷ qs else qs)

-- Numbered from `n` on, modulo 2 ^ 32.
abbrev pub Consecutive : ℕ → List Packet → Type 0
Consecutive n [] = Unit {0}
Consecutive n (p ∷ ps) = (p.seq ≡ n) × Consecutive ((n + 1) % 2 ^ 32) ps

abbrev pub AllBytes : List Packet → Type 0
AllBytes [] = Unit {0}
AllBytes (p ∷ ps) = IsBytes p.body × AllBytes ps

-- A user with its key's table goes through every history without a fault, and the packets that it
-- accepts carry consecutive sequence numbers from its own on: none is accepted twice before the
-- counter wraps, none out of order, and none after a gap. The user counts them and keeps its key.
pub accepted-Consecutive :
    (u : User) (ps : List Packet)
    → HasKey u
    → AllBytes ps
    → (v : User) × (qs : List Packet) × (accepted u ps ≡ some (v, qs))
      × Consecutive u.seq qs
      × (v.seq ≡ (u.seq + length qs) % 2 ^ 32)
      × (v.key ≡ u.key)
accepted-Consecutive u [] k b = (u, [], refl, tt, omega (arith, k.in_range), refl)
accepted-Consecutive u (p ∷ ps) k b =
    elim (check_security-cases u p.crc p.seq (length p.body) p.body k (le_refl _) b.0) [
      | inl (a, e) ↦
          let (v, qs, run, chain, count, key) =
            accepted-Consecutive (record u { seq = (u.seq + 1) % 2 ^ 32 }) ps
              (record {
                table = k.table;
                sized = k.sized;
                filled = k.filled;
                in_range = omega arith;
              })
              b.1 in
          (v, p ∷ qs, rw (e, run), (a.0, chain), omega arith, key)
      | inr (_, e) ↦
          let (v, qs, run, chain, count, key) = accepted-Consecutive u ps k b.1 in
          (v, qs, rw (e, run), chain, count, key)
    ]
