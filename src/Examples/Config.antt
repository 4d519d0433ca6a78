-- ===== src/Examples/Config.antt =====
-- src/VChatLib/VConfigureManager.cpp: concrete files.
use model_lib.Common.{
  ℕ, ◌%◌, ◌≡◌, refl, Option, none, some, List, [], ◌∷◌, ◌++◌, codes, arith, replicate, map,
}
use model_lib.Common.Int.{ℤ, pos}
use model_lib.Config.{
  Text, Config, Environment, Parsed, UnsignedOption, SignedOption, TextOption, opt_server_port,
  opt_max_room, opt_match_making_delta, opt_match_making_min_room, opt_chat_address, new_config,
  start, start_from, start_parsed, notify, set_addresses, load_lists, list_size, find_colon, before,
  behind,
}
use model_lib.Config.Address.{colon, set_addresses-splits}
use model_lib.Config.Lists.{Loads, start-Loads}

-- A file with a port, three deltas and two limits of rooms.
abbrev unsigned : UnsignedOption → Option ℕ
unsigned opt_server_port = some 4321
unsigned _ = none

abbrev signed : SignedOption → Option ℤ
signed opt_max_room = some (pos 12)
signed _ = none

abbrev texts : TextOption → Option Text
texts opt_match_making_delta = some (1 ∷ 2 ∷ 3 ∷ [])
texts opt_match_making_min_room = some (8 ∷ 9 ∷ [])
texts opt_chat_address = some (codes "chat:81")
texts _ = none

abbrev file : Parsed
file = record { unsigned_value = unsigned; signed_value = signed; text_value = texts }

-- Every byte is a word, and the first byte of a word is its number.
abbrev words : Text → List Text
words = map (λ c. c ∷ [])

abbrev value : Text → Option ℤ
value [] = none
value (c ∷ cs) = some (pos (c % 256))

abbrev here : Environment
here = record { file = some (some file); split = words; cast = value }

abbrev memory : List ℤ
memory = replicate 5 (pos 77)

start-Loads_example :
    Loads here file (new_config memory memory) (start here (new_config memory memory))
unfolding new_config
start-Loads_example = start-Loads here file (new_config memory memory) refl refl refl

-- What comes of it.
abbrev chosen : Option Config → List ℤ × List ℤ × Text × Text × ℕ
chosen none = ([], [], [], [], 0)
chosen (some c) = (c.match_making_delta, c.min_mm_room, c.chat_addr, c.chat_port, c.port)

configured : chosen (start here (new_config memory memory)) ≡ (
  pos 1 ∷ pos 2 ∷ pos 77 ∷ pos 77 ∷ pos 77 ∷ [],
  pos 8 ∷ pos 9 ∷ pos 77 ∷ pos 77 ∷ pos 77 ∷ [],
  codes "chat",
  codes "81",
  4321,
)
unfolding start start_from start_parsed list_size load_lists notify set_addresses find_colon before
    behind new_config
configured = refl

set_addresses-splits_example :
    let empty = new_config memory memory in
    let split = set_addresses (codes "chat" ++ colon ∷ codes "81") (codes "web") empty in
    let whole = set_addresses (codes "chat") (codes "web") empty in
    (split.chat_addr ≡ codes "chat")
    × (split.chat_port ≡ codes "81")
    × (whole.chat_addr ≡ codes "chat")
    × (whole.chat_port ≡ codes "chat")
set_addresses-splits_example =
    set_addresses-splits (codes "chat") (codes "81") (codes "web") (new_config memory memory)
      (omega arith, (omega arith, (omega arith, (omega arith, tt))))
