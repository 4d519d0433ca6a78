-- ===== src/Pipeline/Delivery.antt =====
-- What a client that numbers and seals its packets can rely on.
use native.Mathlib.Nat.{le_refl}
use model_lib.Common.{
  ℕ, suc, ◌+◌, ◌*◌, ◌%◌, ◌^◌, ◌≡◌, refl, ◌⊎◌, inl, inr, Bool, true, ◌&&◌, some, List, [], ◌∷◌, map,
  length, take_all, arith, ==_refl,
}
use model_lib.User.{User, get_session}
use model_lib.User.Serial.{serial_crc, IsBytes}
use model_lib.User.Security.{HasKey, Acceptable, check_security-cases}
use model_lib.Session.{Session, Reading, lock_user}
use model_lib.Session.Wire.{Header}
use model_lib.Session.Framing.{
  Packet, AllSendable, Sendable, deliveries, encode_all, pump, pump-encode_all,
}
use model_lib.NetworkProcess.{
  Types, Action, game, receive_packet, admitted, on_receive, checked, dispatch, above, below,
}
use model_lib.NetworkProcess.Ownership.{release_own}
use model_lib.Pipeline.{user_for, buffer, serve_all}

-- A packet for the handlers of the game, with its number, and the CRC under the key if it has a body.
pub record IsSealed (types : Types) (key n : ℕ) (p : Packet) : Type 0 where
  pub numbered : p.head.seq ≡ n
  pub authentic : (p.head.len ≡ 0) ⊎ (p.head.crc ≡ serial_crc key key p.payload)
  pub bytes : IsBytes p.payload
  pub for_game : (above types.gs_unknown p.head.type && below types.gs_count p.head.type) ≡ true

-- Numbered from `n` on, modulo 2 ^ 32.
abbrev pub AllSealed : Types → ℕ → ℕ → List Packet → Type 0
AllSealed types key n [] = Unit {0}
AllSealed types key n (p ∷ ps) = IsSealed types key n p × AllSealed types key ((n + 1) % 2 ^ 32) ps

abbrev pub handed : ℕ → Packet → Action
handed address p = game p.head (buffer address p.head p.payload)

-- A user that may receive and whose session is this connection, whatever its number is.
pub record IsConnected (alive : ℕ → Bool) (can_receive : User → Bool) (conn : ℕ) (u : User)
    : Type 0 where
  pub receives : (n : ℕ) → can_receive (record u { seq = n }) ≡ true
  pub session : get_session alive u ≡ some conn

abbrev counted : User → User
counted u = record u { seq = (u.seq + 1) % 2 ^ 32 }

module _ (types : Types) (alive : ℕ → Bool) (can_receive : User → Bool) (address conn : ℕ) where
  admits :
      (u : User) (h : Header)
      → IsConnected alive can_receive conn u
      → admitted types alive can_receive conn (some u) h ≡ true
  unfolding admitted
  admits u h c =
      let may : can_receive u ≡ true = c.receives u.seq in rw (may, c.session) (==_refl conn)

  acceptable :
      (u : User) (p : Packet)
      → Sendable p
      → IsSealed types u.key u.seq p
      → Acceptable u p.head.crc p.head.seq p.payload p.head.len
  acceptable u p ok s = (
    s.numbered,
    elim s.authentic [
      | inl z ↦ inl z
      | inr e ↦ inr (rw (take_all p.payload p.head.len ok.sized) e)
    ],
  )

  receive_sealed :
      (u : User) (p : Packet)
      → HasKey u
      → IsConnected alive can_receive conn u
      → Sendable p
      → IsSealed types u.key u.seq p
      → receive_packet types alive can_receive conn
          (some u)
          p.head
          (buffer address p.head p.payload)
        ≡ some (some (counted u), handed address p ∷ [], true)
  unfolding receive_packet on_receive checked dispatch
  receive_sealed u p k c ok s =
      elim (check_security-cases u p.head.crc p.head.seq p.head.len p.payload k
        (omega (arith, ok.sized)) s.bytes) [
          | inr (bad, _) ↦ absurd (bad (acceptable u p ok s))
          | inl (_, e) ↦
              rw (admits u p.head c, e, s.for_game, release_own (buffer address p.head p.payload))
                refl
        ]

  -- What is left to show of a run of the processors.
  counted-HasKey : (u : User) → HasKey u → HasKey (counted u)
  counted-HasKey u k = record {
    table = k.table;
    sized = k.sized;
    filled = k.filled;
    in_range = omega arith;
  }

  counted-IsConnected :
      (u : User)
      → IsConnected alive can_receive conn u
      → IsConnected alive can_receive conn (counted u)
  unfolding get_session
  counted-IsConnected u c = record { receives = c.receives; session = c.session }

  serve_sealed :
      (u : User) (uid : ℕ) (ps : List Packet)
      → HasKey u
      → IsConnected alive can_receive conn u
      → AllSendable ps
      → AllSealed types u.key u.seq ps
      → serve_all types alive can_receive address conn (some u) (deliveries (some uid) ps)
        ≡ some (some (record u { seq = (u.seq + length ps) % 2 ^ 32 }), map (handed address) ps)
  unfolding serve_all user_for
  serve_sealed u uid [] k c ok s =
      let still : (u.seq + 0) % 2 ^ 32 ≡ u.seq = omega (arith, k.in_range) in rw still refl
  serve_sealed u uid (p ∷ ps) k c ok s =
      let ih =
        serve_sealed (counted u) uid ps (counted-HasKey u k) (counted-IsConnected u c) ok.1 s.1 in
      let sum : ((u.seq + 1) % 2 ^ 32 + length ps) % 2 ^ 32 ≡ (u.seq + suc (length ps)) % 2 ^ 32 =
        omega arith in
      rw (receive_sealed u p k c ok.0 s.0, ih, sum) refl

  -- A session of a user with its key, that may receive and whose session this connection is, reads from a stream of
  -- packets that are numbered from the user's number on and sealed under its key, all for the game: each packet
  -- reaches the handlers once, in order, with its header and its body; nothing else is done, and the
  -- user has counted them all.
  pub stream-reaches_handlers :
      (exists : ℕ → Bool) (u : User) (uid : ℕ) (ps : List Packet) (s : Session)
      → HasKey u
      → IsConnected alive can_receive conn u
      → AllSendable ps
      → AllSealed types u.key u.seq ps
      → s.reading ≡ Reading.header
      → lock_user exists s ≡ some uid
      → serve_all types alive can_receive address conn
          (some u)
          (pump exists true (2 * length ps) s (encode_all ps)).1
        ≡ some (some (record u { seq = (u.seq + length ps) % 2 ^ 32 }), map (handed address) ps)
  stream-reaches_handlers exists u uid ps s k c ok sealed waits locked =
      let (delivered, _, _, _) = pump-encode_all exists ps (2 * length ps) s ok (le_refl _) waits in
      rw (delivered, locked) (serve_sealed u uid ps k c ok sealed)
