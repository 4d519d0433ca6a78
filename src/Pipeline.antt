-- ===== src/Pipeline.antt =====
-- From the bytes of a connection to the handlers: `session` (src/VNetWork/VAsyncServer.hpp) calls `ReceivePacket` of
-- `VNetworkProcessPacketManager` for each packet, and the user of the session is the one that checks it.
pub mod Answers
pub mod Broadcast
pub mod Delivery
use model_lib.Common.{ℕ, Bool, Option, none, some, ◌>>=◌, List, [], ◌∷◌, ◌++◌}
use model_lib.User.{User}
use model_lib.Session.{Effect, received, close_session, write_policy, shutdown}
use model_lib.Session.Wire.{Header}
use model_lib.NetworkProcess.{Types, Block, Action, Outcome, receive_packet}

-- ReceivePacket(this, user.get(), &header_, buff): null where the user is gone.
unfoldable pub user_for : Option ℕ → Option User → Option User
user_for none user = none
user_for (some u) user = user

-- `data_` of the session, which has the length that the header tells.
abbrev pub buffer : ℕ → Header → List ℕ → Block
buffer address h bytes = record { size = h.len; address = address; bytes = bytes }

module _ (types : Types) (alive : ℕ → Bool) (can_receive : User → Bool) (address conn : ℕ) where
  -- What the calls of a session do, one after another, to its user and to the processors; `none` is a read past the
  -- packet.
  unfoldable pub serve_all : Option User → List Effect → Option (Option User × List Action)
  unfolding user_for
  serve_all user [] = some (user, [])
  serve_all user (received u h bytes ∷ es) = do
    (user', acts, answer) ←
        receive_packet types alive can_receive conn (user_for u user) h (buffer address h bytes)
    (user'', acts') ← serve_all user' es
    some (user'', acts ++ acts')
  serve_all user (close_session u ∷ es) = serve_all user es
  serve_all user (write_policy ∷ es) = serve_all user es
  serve_all user (shutdown ∷ es) = serve_all user es
