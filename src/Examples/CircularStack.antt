-- ===== src/Examples/CircularStack.antt =====
-- src/VCommon/VCommonDefines.h, `VCircularStack`: three places and five pushes.
use model_lib.Common.{ℕ, min, ◌≡◌, refl, false, List, [], ◌∷◌, arith}
use model_lib.CircularStack.{new_stack, get}
use model_lib.CircularStack.History.{push_all, get-recent}

abbrev memory : List ℕ
memory = 0 ∷ 0 ∷ 0 ∷ []

abbrev five : List ℕ
five = 1 ∷ 2 ∷ 3 ∷ 4 ∷ 5 ∷ []

get-recent_example :
    ((get 3 false (push_all 3 five (new_stack memory))).0 ≡ min 3 5)
    × ((get 3 false (push_all 3 five (new_stack memory))).1 ≡ 3 ∷ 4 ∷ 5 ∷ [])
get-recent_example = get-recent 0 3 (omega arith) memory five false refl (omega arith)
