-- ===== src/NetworkProcess.antt =====
-- src/VChatLib/VNetworkProcessPacketManager.cpp: what happens to a packet that a session has read. The
-- processors that it is handed to, the bounds of the packet types, `CanReceivePacket` and the address that `Allocate`
-- gives are parameters. A read of the block past the bytes that were put there is a fault.
pub mod Ownership
pub mod Parts
use model_lib.Common.{
  ℕ, zero, suc, ◌+◌, ◌-◌, Bool, true, false, not, Option, none, some, ◌>>=◌, List, [], ◌∷◌, ◌++◌,
  ◌==◌, ◌||◌, ◌&&◌, ltb, if◌then◌else◌,
}
use model_lib.Common.Int.{ℤ, pos, negsuc}
use model_lib.User.{User, get_session, check_security}
use model_lib.Session.Wire.{Header}
use model_lib.SimpleBuffer.{memcpy}
use model_lib.Allocate.{block_size}

-- The bounds of the three ranges of packet types, and the type of a login.
pub record Types : Type 0 where
  pub gs_unknown : ℤ
  pub gs_count : ℤ
  pub db_unknown : ℤ
  pub db_count : ℤ
  pub guild_unknown : ℤ
  pub guild_count : ℤ
  pub db_login : ℤ

abbrev pub above : ℤ → ℕ → Bool
above (pos n) t = ltb n t
above (negsuc n) t = true

abbrev pub below : ℤ → ℕ → Bool
below (pos n) t = ltb t n
below (negsuc n) t = false

abbrev pub is : ℤ → ℕ → Bool
is (pos n) t = t == n
is (negsuc n) t = false

-- `VMutableBuffer`, with the bytes that its address holds. 0 is null.
pub record Block : Type 0 where
  pub size : ℕ
  pub address : ℕ
  pub bytes : List ℕ

-- What is done with a block.
pub data Action : Type 0 where
  game : Header → Block → Action  -- `VChatProcessPacketManager::ProcessPacket`
  database : ℕ → Block → Action  -- `VDatabaseManager::ProcessPacket`
  guild : ℕ → Block → Bool → Action  -- `VGuildProcessPacket::ProcessPacket`
  login : ℕ → Block → Action  -- `VDatabaseManager::ProcessLogin`
  de_allocate : Block → Action

-- if (buff.second && !bOwnMem) DeAllocate(…)
unfoldable pub release : Block → Bool → List Action
release b own_mem = if not (b.address == 0) && not own_mem then de_allocate b ∷ [] else []

-- The player afterwards, what was done, and the answer; `none` is a read past the block.
abbrev pub Outcome : Type 0
Outcome = Option User × List Action × Bool

module _ (types : Types) where
  -- The part for a player whose packet passed the check.
  unfoldable pub dispatch : Header → Block → Bool → List Action
  unfolding release
  dispatch h b own_mem =
      if above types.gs_unknown h.type && below types.gs_count h.type
      then game h b ∷ release b own_mem
      else if above types.db_unknown h.type && below types.db_count h.type
      then database h.type b ∷ []
      else if above types.guild_unknown h.type && below types.guild_count h.type
      then guild h.type b (not own_mem) ∷ []
      else []

  -- What follows `CheckSecurity`.
  unfoldable pub checked : User × Bool → Header → Block → Bool → Outcome
  unfolding dispatch release
  checked (player, true) h b own_mem = (some player, dispatch h b own_mem, true)
  checked (player, false) h b own_mem = (some player, release b own_mem, false)

  -- `OnReceive`
  unfoldable pub on_receive : ℕ → Option User → Header → Block → Bool → Option Outcome
  unfolding checked release
  on_receive session (some player) h b own_mem = do
    result ← check_security h.crc h.seq b.bytes b.size player
    some (checked result h b own_mem)
  on_receive session none h b own_mem =
      some
        (none, if is types.db_login h.type then login session b ∷ release b own_mem else [], true)

  module _ (alive : ℕ → Bool) (can_receive : User → Bool) where
    -- The test that both forms of `ReceivePacket` begin with: whether they go on.
    unfoldable pub admitted : ℕ → Option User → Header → Bool
    unfolding get_session
    admitted conn (some u) h =
        can_receive u && elim (get_session alive u) [ none ↦ false | some s ↦ s == conn ]
    admitted conn none h = is types.db_login h.type

    -- `ReceivePacket` of one buffer, which stays the session's.
    unfoldable pub receive_packet : ℕ → Option User → Header → Block → Option Outcome
    unfolding admitted on_receive
    receive_packet conn user h buff =
        if admitted conn user h then on_receive conn user h buff true else some (user, [], false)

    -- `ReceivePacket` of two parts, joined in a block at `address` that is allocated for `nLen` bytes.
    unfoldable pub receive_parts : ℕ → ℕ → Option User → Header → Block → Block → Option Outcome
    unfolding admitted on_receive
    receive_parts address conn user h buff1 buff2 =
        let joined : Option Outcome = (do
          room ← block_size h.len
          part1 ← memcpy room buff1.bytes buff1.size
          part2 ← memcpy (room - buff1.size) buff2.bytes buff2.size
          on_receive conn user h
              (record { size = h.len; address = address; bytes = part1 ++ part2 }) false) in
        if admitted conn user h then joined else some (user, [], false)
