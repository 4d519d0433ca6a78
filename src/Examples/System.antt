-- ===== src/Examples/System.antt =====
-- src/VChatLib/VSystemManager.cpp at concrete inputs.
use model_lib.Common.{ℕ, ◌≡◌, refl, Option, none, some, List, [], ◌∷◌, ◌++◌, codes, replicate}
use model_lib.Common.Int.{pos}
use model_lib.Config.{Text, Config, new_config}
use model_lib.System.{
  Action, global_chat, dir_of, dir_step, chat_start_windows, console, command, notice_text,
}
use model_lib.System.Console.{Says, notices, console-sends}

abbrev lines : List Text
lines = codes "shello" ∷ codes "noise" ∷ codes "quit" ∷ codes "snever" ∷ []

abbrev config : Config
config = new_config (replicate 5 (pos 0)) (replicate 5 (pos 0))

abbrev path : Text
path = codes "C:\\chat\\server.exe"

abbrev or_idle : Option (List Action) → List Action
or_idle none = []
or_idle (some acts) = acts

abbrev whole_run : List Action
whole_run = or_idle (chat_start_windows config (1 ∷ 2 ∷ []) path lines)

directory : dir_of 92 path ≡ some (codes "C:\\chat\\")
unfolding dir_of dir_step
directory = refl

console-sends_example :
    (ns : List (List ℕ)) × Says lines ns × (console (1 ∷ 2 ∷ []) lines ≡ notices (1 ∷ 2 ∷ []) ns)
console-sends_example = console-sends (1 ∷ 2 ∷ []) lines

-- One notice, of 5 letters and 59 zeros.
one_notice : console (1 ∷ 2 ∷ []) lines ≡ global_chat (1 ∷ 2 ∷ codes "hello" ++ replicate 59 0) ∷ []
unfolding console command notice_text
one_notice = refl

-- A lone s is a notice of zeros, a lone S is none.
lone :
    (console [] (codes "s" ∷ []) ≡ global_chat (replicate 64 0) ∷ [])
    × (console [] (codes "S" ∷ []) ≡ [])
unfolding console command notice_text
lone = (refl, refl)
