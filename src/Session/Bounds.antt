-- ===== src/Session/Bounds.antt =====
-- Every read of a session stays inside `data_`; what ends a session.
use model_lib.Common.{
  ℕ, ◌+◌, ◌≤◌, ◌<◌, ◌≡◌, ◌≢◌, ◌⊎◌, inl, inr, refl, Bool, false, none, some, List, [], ◌∷◌, ◌++◌,
  length, length-append, length-take, length-drop, take, drop, ltb, arith,
}
use model_lib.Session.{
  Session, Reading, idle, flow, policy, header, body, Effect, close_session, Completion, done,
  failed, wanted, offset, lock_user, on_read, max_length, store,
}
use model_lib.Session.Wire.{decode_header}

length-store :
    (at : ℕ) (bytes array : List ℕ)
    → at + length bytes ≤ length array
    → length (store at bytes array) ≡ length array
length-store at bytes array fits = omega (
  arith,
  length-append (take at array ++ bytes) (drop (at + length bytes) array),
  length-append (take at array) bytes,
  length-take at array,
  length-drop (at + length bytes) array,
)

-- The array is whole, and a body that is asked for is not empty and fits.
pub record IsSafe (s : Session) : Type 0 where
  pub sized : length s.data_ ≡ max_length
  pub body_fits : s.reading ≡ body → (0 < s.header_.len) × (s.header_.len < max_length)

-- A completion of the outstanding read: an error, or the bytes asked for.
abbrev pub Completes : Session → Completion → Type 0
Completes s failed = Unit {0}
Completes s (done bytes) = length bytes ≡ wanted s

leb-ltb : (a b : ℕ) → b ≤ a → ltb a b ≡ false
leb-ltb a b h = ground arith

module _ (alive : ℕ → Bool) (installed : Bool) where
  on_read-IsSafe :
      (r : Reading) (s : Session) (c : Completion)
      → s.reading ≡ r
      → IsSafe s
      → Completes s c
      → IsSafe (on_read alive installed c s).0
  unfolding on_read
  on_read-IsSafe idle s c e v ok = ground arith
  on_read-IsSafe flow s failed e v ok = ground arith
  on_read-IsSafe flow s (done bytes) e v ok = ground (arith, length-store 0 bytes s.data_)
  on_read-IsSafe policy s failed e v ok = ground arith
  on_read-IsSafe policy s (done bytes) e v ok = ground (arith, length-store 1 bytes s.data_)
  on_read-IsSafe header s failed e v ok = ground arith
  on_read-IsSafe header s (done bytes) e v ok = ground (arith, length-store 0 [] s.data_)
  on_read-IsSafe body s failed e v ok = ground arith
  on_read-IsSafe body s (done bytes) e v ok = ground (arith, length-store 0 bytes s.data_)

  -- The reads of a session, one completion after another.
  abbrev pub serve : List Completion → Session → Session
  serve [] s = s
  serve (c ∷ cs) s = serve cs (on_read alive installed c s).0

  abbrev pub AllComplete : List Completion → Session → Type 0
  AllComplete [] s = Unit {0}
  AllComplete (c ∷ cs) s = Completes s c × AllComplete cs (on_read alive installed c s).0

  serve-IsSafe :
      (cs : List Completion) (s : Session) → IsSafe s → AllComplete cs s → IsSafe (serve cs s)
  serve-IsSafe [] s v ok = v
  serve-IsSafe (c ∷ cs) s v ok = serve-IsSafe cs _ (on_read-IsSafe s.reading s c refl v ok.0) ok.1

  -- Whatever completes, the read that is outstanding next asks for no byte past the end of `data_`
  -- (`header_` has a buffer of its own), and a body is asked for only with a length from 1 to 1023.
  pub serve-in_bounds :
      (cs : List Completion) (s : Session)
      → IsSafe s
      → AllComplete cs s
      → (length (serve cs s).data_ ≡ max_length)
        × ((serve cs s).reading ≢ header
            → offset (serve cs s).reading + wanted (serve cs s) ≤ length (serve cs s).data_)
        × ((serve cs s).reading ≡ body
            → (0 < (serve cs s).header_.len) × ((serve cs s).header_.len < 1024))
  serve-in_bounds cs s v ok = (w.sized, fits (serve cs s) w, w.body_fits)
    where
      w : IsSafe (serve cs s)
      w = serve-IsSafe cs s v ok

      fits :
          (u : Session)
          → IsSafe u
          → u.reading ≢ header
          → offset u.reading + wanted u ≤ length u.data_
      fits u h ne = by_reading u.reading u refl h ne
        where
          by_reading :
              (r : Reading) (u : Session)
              → u.reading ≡ r
              → IsSafe u
              → u.reading ≢ header
              → offset u.reading + wanted u ≤ length u.data_
          by_reading idle u e h ne = ground arith
          by_reading flow u e h ne = ground arith
          by_reading policy u e h ne = ground arith
          by_reading header u e h ne = absurd (ne e)
          by_reading body u e h ne = ground arith

  -- What `handler_error` leaves and does.
  abbrev Ended : Session → Session × List Effect → Type 0
  Ended s (s', es) =
      (s'.reading ≡ idle)
      × (es ≡ elim (lock_user alive s) [ none ↦ [] | some u ↦ close_session u ∷ [] ])

  failing :
      (r : Reading) (s : Session)
      → s.reading ≡ r
      → s.reading ≢ idle
      → Ended s (on_read alive installed failed s)
  unfolding on_read
  failing idle s e busy = absurd (busy e)
  failing flow s e busy = rw e (refl, refl)
  failing policy s e busy = rw e (refl, refl)
  failing header s e busy = rw e (refl, refl)
  failing body s e busy = rw e (refl, refl)

  oversized :
      (s : Session) (bytes : List ℕ)
      → s.reading ≡ header
      → max_length ≤ (decode_header bytes).len
      → Ended s (on_read alive installed (done bytes) s)
  unfolding on_read
  oversized s bytes e big = rw (e, leb-ltb (decode_header bytes).len max_length big) (refl, refl)

  -- A read that fails, and a header that announces 1024 bytes or more, end the session: the user, if there
  -- is one, is told to close its session, nothing is delivered, and no read follows.
  on_read-ends :
      (s : Session) (c : Completion)
      → s.reading ≢ idle
      → (c ≡ failed)
        ⊎ ((s.reading ≡ header)
            × ((bytes : List ℕ) × (c ≡ done bytes) × (max_length ≤ (decode_header bytes).len)))
      → ((on_read alive installed c s).0.reading ≡ idle)
        × ((on_read alive installed c s).1
            ≡ elim (lock_user alive s) [ none ↦ [] | some u ↦ close_session u ∷ [] ])
  on_read-ends s c busy (inl e) = rw e (failing s.reading s refl busy)
  on_read-ends s c busy (inr (e, (bytes, ec, big))) = rw ec (oversized s bytes e big)
