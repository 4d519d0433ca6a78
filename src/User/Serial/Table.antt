-- ===== src/User/Serial/Table.antt =====
-- What the outer loop of `InitSecretKey` leaves in the table.
use model_lib.Common.{
  ℕ, zero, suc, ◌+◌, ◌≤◌, ◌<◌, ◌≡◌, refl, ◌∙◌, List, set, get_or, length, length-set,
  get_or-set_self, get_or-set_ne, arith, ℕ_discrete,
}
use model_lib.User.SecretKey.{key_rounds, fill_table, init_table}

length-fill_table :
    (key left n : ℕ) (table : List ℕ) → length (fill_table key left n table) ≡ length table
unfolding fill_table
length-fill_table key zero n table = refl
length-fill_table key (suc left) n table =
    length-fill_table key left (n + 1) (set table n (key_rounds key 8 n)) ∙ length-set table n _

pub length-init_table : (key : ℕ) (table : List ℕ) → length (init_table key table) ≡ length table
unfolding init_table
length-init_table key table = length-fill_table key 256 0 table

fill_table_below :
    (key left n i : ℕ) (table : List ℕ)
    → i < n
    → get_or (fill_table key left n table) i 0 ≡ get_or table i 0
unfolding fill_table
fill_table_below key zero n i table h = refl
fill_table_below key (suc left) n i table h =
    fill_table_below key left (n + 1) i (set table n (key_rounds key 8 n)) (omega arith)
    ∙ get_or-set_ne table n i _ 0 (omega arith)

fill_table_inside :
    (key left n i : ℕ) (table : List ℕ)
    → n ≤ i
    → i < n + left
    → n + left ≤ length table
    → get_or (fill_table key left n table) i 0 ≡ key_rounds key 8 i
unfolding fill_table
fill_table_inside key zero n i table lo hi fits = absurd (omega arith)
fill_table_inside key (suc left) n i table lo hi fits = elim (ℕ_discrete n i) [
  | yes e ↦ rw (← e) (
      fill_table_below key left (n + 1) n (set table n (key_rounds key 8 n)) (omega arith)
      ∙ get_or-set_self table n _ 0 (omega arith))
  | no ne ↦
      fill_table_inside key left (n + 1) i (set table n (key_rounds key 8 n)) (omega arith)
        (omega arith) (omega (arith, length-set table n (key_rounds key 8 n)))
]

-- Entry `i` is the register that starts at `i` after eight rounds.
pub get_or-init_table :
    (key i : ℕ) (table : List ℕ)
    → length table ≡ 256
    → i < 256
    → get_or (init_table key table) i 0 ≡ key_rounds key 8 i
unfolding init_table
get_or-init_table key i table len h =
    fill_table_inside key 256 0 i table (omega arith) (omega arith) (omega arith)
