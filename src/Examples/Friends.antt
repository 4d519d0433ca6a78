-- ===== src/Examples/Friends.antt =====
-- src/VChatLib/VChatProcessPacketManager.cpp: friends, and the table of handlers, at concrete inputs.
use model_lib.Common.{
  ◌≡◌, refl, ◌⊎◌, true, false, Option, none, some, List, [], ◌∷◌, ◌==◌, if◌then◌else◌, codes,
}
use model_lib.Common.Int.{ℤ, pos, negsuc}
use model_lib.ChatProcess.Friends.{
  Field, Friend, RoleRecord, Services, is_window, request_zme_friends, friends_buffer,
}
use model_lib.ChatProcess.Friends.Reading.{
  Seen, one_more, none_left, friend, no_friends, read_buffer, request_zme_friends-reads,
}
use model_lib.ChatProcess.Friends.Missing.{this, later, missing_role_unreadable}

abbrev knight : RoleRecord
knight = record { server_id = pos 1; sex = pos 0; level = pos 30; role_name = codes "knight" }

-- Role 7 has a record, every other has none.
abbrev record_of : ℤ → Option RoleRecord
record_of (pos n) = if n == 7 then some knight else none
record_of (negsuc n) = none

abbrev ann : Friend
ann = record { display_name = codes "ann"; url = codes "/ann"; role_ids = pos 7 ∷ [] }

abbrev bob : Friend
bob = record { display_name = codes "bob"; url = codes "/bob"; role_ids = pos 7 ∷ pos 8 ∷ [] }

abbrev services : Services
services = record {
  friends = λ player from to. ann ∷ [];
  find_record = record_of;
  is_online = λ id. true;
}

abbrev seen_ann : Seen
seen_ann = record {
  display_name = codes "ann";
  url = codes "/ann";
  roles = record { id = pos 7; found = knight; online = pos 1 } ∷ [];
}

request_zme_friends-reads_example :
    ((is_window (pos 0) (pos 10) ≡ true)
      × ((sent : List Field) × (request_zme_friends services 3 (pos 0) (pos 10) ≡ some sent)
          × (read_buffer sent ≡ some (seen_ann ∷ [], []))))
    ⊎ ((is_window (pos 0) (pos 10) ≡ false)
        × (request_zme_friends services 3 (pos 0) (pos 10) ≡ none))
request_zme_friends-reads_example =
    request_zme_friends-reads services 3 (pos 0) (pos 10) (seen_ann ∷ []) (
      friend ann (record { id = pos 7; found = knight; online = pos 1 } ∷ [])
        (one_more (pos 7) knight refl none_left) no_friends)

missing_role_unreadable_example : read_buffer (friends_buffer services (bob ∷ [])) ≡ none
missing_role_unreadable_example =
    missing_role_unreadable services bob (later (pos 7) (pos 8 ∷ []) (this (pos 8) [] refl))
