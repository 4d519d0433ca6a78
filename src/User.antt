-- ===== src/User.antt =====
-- src/VNetWork/VUser.h, VUser.cpp: the class `VUser`. A session is named by its address; `m_Session` is a
-- weak pointer, so each use asks `alive`, which says whether the session still exists. Every method
-- holds `m_Mutex` for its whole body or touches one field, so a method is one step.
pub mod SecretKey
pub mod Serial
pub mod Security
use model_lib.Common.{
  ℕ, ◌+◌, ◌%◌, ◌^◌, Bool, true, false, Option, none, some, ◌>>=◌, List, ◌==◌, ◌||◌, if◌then◌else◌,
}
use model_lib.Crc.{get_crc}
use SecretKey.{init_table}

pub data UserState : Type 0 where
  unknow login logout : UserState

pub record User : Type 0 where
  pub state : UserState
  pub session : Option ℕ
  pub crc_table : List ℕ
  pub seq : ℕ
  pub key : ℕ

-- `VUser()`: the key and the table keep what the memory held.
unfoldable pub new_user : ℕ → List ℕ → User
new_user key table = record {
  state = unknow;
  session = none;
  crc_table = table;
  seq = 0;
  key = key;
}

-- `m_Session.lock()`
unfoldable pub get_session : (ℕ → Bool) → User → Option ℕ
get_session alive u = elim u.session [ none ↦ none | some s ↦ if alive s then some s else none ]

-- The null pointer is `none`.
unfoldable pub set_session_internal : Option ℕ → User → User
set_session_internal s u = record u { session = s }

unfoldable pub set_session : Option ℕ → User → User
unfolding set_session_internal
set_session s u = set_session_internal s u

-- Also tells the session its user (`set_user`): that call, if one is made, is the second part.
unfoldable pub set_session_external {ℓ} : {R : Type ℓ} → Option ℕ → R → User → User × Option (ℕ × R)
set_session_external (some s) ref u = (record u { session = some s }, some (s, ref))
set_session_external none ref u = (record u { session = none }, none)

unfoldable pub close_session : User → User
unfolding set_session
close_session u = set_session none u

unfoldable pub set_state : UserState → User → User
set_state logout u = record u { state = logout; session = none }
set_state s u = record u { state = s }

unfoldable pub reset : User → User
reset u = record u { state = unknow }

-- `SendBuffer`, and `SendData` over a header and a body: what is handed to which session.
unfoldable pub send_buffer {ℓ} : {B : Type ℓ} → (ℕ → Bool) → User → B → Option (ℕ × B)
unfolding get_session
send_buffer alive u buffer = do s ← get_session alive u; some (s, buffer)

unfoldable pub init_secret_key : ℕ → User → User
init_secret_key key u = record u { key = key; seq = 0; crc_table = init_table key u.crc_table }

-- `CheckSecurity(nCRC, nSeq, pBuff, nLen)`. Only a packet that is accepted moves `m_nSeq`, which wraps.
unfoldable pub check_security : ℕ → ℕ → List ℕ → ℕ → User → Option (User × Bool)
check_security crc seq buff len u =
    let accept : User × Bool = (record u { seq = (u.seq + 1) % 2 ^ 32 }, true) in
    if seq == u.seq
    then (if len == 0 then some accept else (do
      c ← get_crc u.key buff len u.crc_table
      some (if crc == c then accept else (u, false))))
    else some (u, false)
