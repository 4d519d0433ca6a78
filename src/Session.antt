-- ===== src/Session.antt =====
-- src/VNetWork/VAsyncServer.hpp: the class `session`. Boost's `async_read` completes with exactly the
-- bytes asked for or with an error, `async_write` with success or an error; each completion is an event
-- that calls the handler. A user is named by a number, and `alive` says which users still exist.
pub mod Address
pub mod Wire
pub mod Bounds
pub mod Framing
pub mod Queue
pub mod Fifo
pub mod Drain
use model_lib.Common.{
  ℕ, suc, ◌+◌, Bool, true, false, Option, none, some, List, [], ◌∷◌, ◌++◌, ◌==◌, ◌&&◌, ltb,
  if◌then◌else◌, get_or, take, drop, length,
}
use Wire.{Header, decode_header, header_size}

abbrev pub max_length : ℕ
max_length = 1024

-- `23 - 1`
abbrev pub header_policy_length : ℕ
header_policy_length = 22

-- "<policy-file-request/>" with its final zero.
abbrev pub request_policy : List ℕ
request_policy =
    60 ∷ 112 ∷ 111 ∷ 108 ∷ 105 ∷ 99 ∷ 121 ∷ 45 ∷ 102 ∷ 105 ∷ 108 ∷ 101 ∷ 45 ∷ 114 ∷ 101 ∷ 113 ∷ 117
    ∷ 101 ∷ 115 ∷ 116 ∷ 47 ∷ 62 ∷ 0 ∷ []

-- The read that is outstanding, by the handler that it will call; `idle` if none is.
pub data Reading : Type 0 where
  idle : Reading
  flow : Reading
  policy : Reading
  header : Reading
  body : Reading

pub record Session : Type 0 where
  pub data_ : List ℕ
  pub header_ : Header
  pub user : Option ℕ
  pub reading : Reading

-- What a handler does to the outside.
pub data Effect : Type 0 where
  received : Option ℕ → Header → List ℕ → Effect  -- `ReceivePacket`
  close_session : ℕ → Effect  -- `CloseSession` of the user
  write_policy : Effect  -- `async_write` of the policy file
  shutdown : Effect

-- Where an outstanding read puts its bytes, and how many it asks for.
abbrev pub offset : Reading → ℕ
offset policy = 1
offset _ = 0

abbrev pub wanted : Session → ℕ
wanted s = elim s.reading [
  | idle ↦ 0
  | flow ↦ 1
  | policy ↦ header_policy_length
  | header ↦ header_size
  | body ↦ s.header_.len
]

-- The bytes of a read, stored at an offset of the array.
abbrev pub store : ℕ → List ℕ → List ℕ → List ℕ
store at bytes array = take at array ++ bytes ++ drop (at + length bytes) array

-- `memcmp(…) == 0`
abbrev pub bytes_eq : List ℕ → List ℕ → Bool
bytes_eq [] [] = true
bytes_eq [] (y ∷ ys) = false
bytes_eq (x ∷ xs) [] = false
bytes_eq (x ∷ xs) (y ∷ ys) = x == y && bytes_eq xs ys

pub data Completion : Type 0 where
  done : List ℕ → Completion
  failed : Completion

module _ (alive : ℕ → Bool) where
  -- `user_.lock()`
  abbrev pub lock_user : Session → Option ℕ
  lock_user s = elim s.user [ none ↦ none | some u ↦ if alive u then some u else none ]

  -- `reset`, which `handler_error` calls. No read follows.
  unfoldable pub handler_error : Session → Session × List Effect
  handler_error s = (
    record s { reading = idle },
    elim (lock_user s) [ none ↦ [] | some u ↦ close_session u ∷ [] ],
  )

  unfoldable pub handler_read_flow : Completion → Session → Session × List Effect
  unfolding handler_error
  handler_read_flow failed s = handler_error s
  handler_read_flow (done bytes) s =
      let s' = record s { data_ = store 0 bytes s.data_ } in
      let first = get_or s'.data_ 0 0 in
      if first == b'<'
      then (record s' { reading = policy }, [])
      else if first == b'A'
      then (record s' { reading = header }, [])
      else (record s' { reading = idle }, [])

  unfoldable pub handler_read_policy : Completion → Session → Session × List Effect
  unfolding handler_error
  handler_read_policy failed s = handler_error s
  handler_read_policy (done bytes) s =
      let s' = record s { data_ = store 1 bytes s.data_; reading = idle } in
      if bytes_eq request_policy (take (header_policy_length + 1) s'.data_)
      then (s', write_policy ∷ [])
      else (s', [])

  -- `installed`: a packet processor is set (`sProcessPacket`).
  unfoldable pub handle_read_body : Bool → Completion → Session → Session × List Effect
  unfolding handler_error
  handle_read_body installed failed s = handler_error s
  handle_read_body installed (done bytes) s =
      let s' = record s { data_ = store 0 bytes s.data_; reading = header } in
      (
        s',
        if installed
            then received (lock_user s) s.header_ (take s.header_.len s'.data_) ∷ []
            else [],
      )

  unfoldable pub handle_read_header : Bool → Completion → Session → Session × List Effect
  unfolding handler_error handle_read_body
  handle_read_header installed failed s = handler_error s
  handle_read_header installed (done bytes) s =
      let s' = record s { header_ = decode_header bytes } in
      if ltb s'.header_.len max_length
      then (if ltb 0 s'.header_.len
          then (record s' { reading = body }, [])
          else handle_read_body installed (done []) s')
      else handler_error s'

  -- The handler of the outstanding read.
  unfoldable pub on_read : Bool → Completion → Session → Session × List Effect
  unfolding handler_read_flow handler_read_policy handle_read_header handle_read_body
  on_read installed c s = elim s.reading [
    | idle ↦ (s, [])
    | flow ↦ handler_read_flow c s
    | policy ↦ handler_read_policy c s
    | header ↦ handle_read_header installed c s
    | body ↦ handle_read_body installed c s
  ]

  -- The completion of the policy write.
  unfoldable pub handle_write_policy : Bool → Session → Session × List Effect
  unfolding handler_error
  handle_write_policy true s = (s, shutdown ∷ [])
  handle_write_policy false s = handler_error s
