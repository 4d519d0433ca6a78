-- ===== src/ChatProcess/Table.antt =====
-- src/VChatLib/VChatProcessPacketManager.cpp: the table of handlers, and `ProcessPacket`. The numbers of the packet types,
-- c2s_gs_count and the layout of JOIN_ROOM_PACKET are not in the repository.
pub mod Dispatch
use model_lib.Common.{
  ℕ, Bool, Option, none, some, ◌>>=◌, List, [], ◌∷◌, ltb, if◌then◌else◌, length, get_or, set,
}

pub data Handler : Type 0 where
  join_room chat ban_nick notify_global enter_queue leave_queue kick_user : Handler
  zme_friends code_zme zc_billing_url : Handler

-- In the order of the constructor's assignments.
abbrev pub handlers : List Handler
handlers =
    join_room ∷ chat ∷ ban_nick ∷ notify_global ∷ enter_queue ∷ leave_queue ∷ kick_user
    ∷ zme_friends ∷ code_zme ∷ zc_billing_url ∷ []

-- `ProcessFunction`; a null pointer is `none`.
abbrev pub Table : Type 0
Table = List (Option Handler)

module _ (type_of : Handler → ℕ) where
  -- The assignments to a table.
  unfoldable pub assign : List Handler → Table → Table
  assign [] t = t
  assign (h ∷ hs) t = assign hs (set t (type_of h) (some h))

  -- The constructor, on what the memory of the table held.
  unfoldable pub new_table : Table → Table
  unfolding assign
  new_table memory = assign handlers memory

-- `ProcessPacket`: the handler that is called, if any; the outer `none` is a read past the table.
unfoldable pub process_packet : Table → ℕ → Option (Option Handler)
process_packet t packet_type =
    if ltb packet_type (length t) then some (get_or t packet_type none) else none

-- `ProcessJoinRoom`: the room and the mode that the user joins with. `layout` reads the packet; `none` is a read past
-- it, or of a null pointer. The size of the packet is not looked at.
unfoldable pub process_join_room :
    (List ℕ → Option (ℕ × ℕ)) → Option ℕ → Option (List ℕ) → Option (Option (ℕ × ℕ × ℕ))
process_join_room layout none packet = some none
process_join_room layout (some usr) none = none
process_join_room layout (some usr) (some bytes) = do
  (room_id, mode) ← layout bytes
  some (some (usr, room_id, mode))
