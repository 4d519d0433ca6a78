-- ===== src/Examples/Packets.antt =====
-- src/VChatLib/VNetworkProcessPacketManager.cpp and VChatProcessPacketManager.cpp: packets of one player.
use model_lib.Common.{
  ℕ, ◌+◌, ◌≡◌, ◌⊎◌, refl, true, false, none, some, List, [], ◌∷◌, arith, replicate, ◌≤◌, ◌<◌, All,
}
use model_lib.Common.Int.{pos, negsuc}
use model_lib.User.{User, new_user, check_security}
use model_lib.Session.Wire.{Header}
use model_lib.NetworkProcess.{
  Types, Block, Action, game, login, de_allocate, Outcome, on_receive, receive_parts, admitted,
  release,
}
use model_lib.NetworkProcess.Ownership.{
  one_if, is_block, freed, handed_over, Unclaimed, on_receive-settles,
}
use model_lib.NetworkProcess.Parts.{joined, receive_parts-joins}
use model_lib.SimpleBuffer.{memcpy}
use model_lib.Allocate.{block_size, find_slot, find_slot_from}
use model_lib.ChatProcess.Table.{Table}
use model_lib.ChatProcess.Table.Dispatch.{InTable, on_receive-InTable}

abbrev types : Types
types = record {
  gs_unknown = negsuc 0;
  gs_count = pos 20;
  db_unknown = pos 100;
  db_count = pos 120;
  guild_unknown = pos 200;
  guild_count = pos 220;
  db_login = pos 101;
}

abbrev player : User
player = new_user 0 (replicate 256 0)

abbrev refused : Outcome
refused = (none, [], false)

abbrev copied : Block
copied = record { size = 0; address = 6; bytes = [] }

-- "B"
abbrev hello : List ℕ
hello = 66 ∷ 0 ∷ []

-- A table of 20 handlers that are all null, and an empty packet for the sixth.
abbrev no_handlers : Table
no_handlers = replicate 20 none

abbrev played : Header
played = record { len = 0; crc = 0; seq = 0; type = 5 }

abbrev handled : List Action
handled = game played copied ∷ de_allocate copied ∷ []

on_receive-InTable_example : All (InTable no_handlers) handled
unfolding new_user check_security on_receive release
on_receive-InTable_example =
    on_receive-InTable types no_handlers 4 (some player) played copied false
      (some (record player { seq = 1 }), handled, true) refl refl

on_receive-settles_example :
    ((p n : ℕ) → freed p n handled + handed_over p n handled ≡ one_if (is_block p n copied))
    ⊎ (Unclaimed types 5 × (handled ≡ []) × (true ≡ true))
unfolding new_user check_security on_receive release
on_receive-settles_example =
    on_receive-settles types 4 player played copied (some (record player { seq = 1 })) handled true
      (λ h. omega arith) refl

-- A login in two parts, of three bytes and a byte, whose header says three bytes: the block has room for four.
abbrev log_in : Header
log_in = record { len = 3; crc = 0; seq = 0; type = 101 }

abbrev front : Block
front = record { size = 3; address = 7; bytes = 65 ∷ 66 ∷ 67 ∷ [] }

abbrev back : Block
back = record { size = 1; address = 8; bytes = 68 ∷ [] }

receive_parts-joins_example :
    let admits = admitted types (λ s. true) (λ u. true) 4 none log_in in
    let run = receive_parts types (λ s. true) (λ u. true) 6 4 none log_in front back in
    ((admits ≡ false) × (run ≡ some (none, [], false)))
    ⊎ ((admits ≡ true)
        × ((room : ℕ) × (block_size 3 ≡ some room)
            × (3 ≤ room)
            × (((3 + 1 ≤ room)
                  × (run ≡ on_receive types 4 none log_in (joined 6 log_in front back) false))
                ⊎ ((room < 3 + 1) × (run ≡ none)))))
receive_parts-joins_example =
    receive_parts-joins types (λ s. true) (λ u. true) 6 4 none log_in front back (omega arith)
      (omega arith) (omega arith)

-- It is handed over with the fourth byte; with five bytes behind it a copy leaves the block.
joined_run :
    receive_parts types (λ s. true) (λ u. true) 6 4 none log_in front back
    ≡ some (
      none,
      login 4 (joined 6 log_in front back) ∷ de_allocate (joined 6 log_in front back) ∷ [],
      true,
    )
unfolding receive_parts admitted on_receive release block_size find_slot find_slot_from memcpy
joined_run = refl

left_block : receive_parts types (λ s. true) (λ u. true) 6 4 none log_in front front ≡ none
unfolding receive_parts admitted on_receive block_size find_slot find_slot_from memcpy
left_block = refl
