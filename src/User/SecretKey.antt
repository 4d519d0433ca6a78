-- ===== src/User/SecretKey.antt =====
-- src/VNetWork/VUser.cpp, `VUser::InitSecretKey`: the loops that fill the CRC table for a key.
use Prim.Native.Nat.{bit_and, bit_xor}
use model_lib.Common.{ℕ, zero, suc, ◌+◌, ◌/◌, List, ◌==◌, if◌then◌else◌, set}

-- One round of the inner loop: `if ((c & 1) != 0) c = nKey ^ (c >> 1); else c = c >> 1;`
unfoldable pub key_step : ℕ → ℕ → ℕ
key_step key c = if bit_and c 1 == 0 then c / 2 else bit_xor key (c / 2)

-- for (k = 0; k < 8; ++k), with the rounds that are left.
unfoldable pub key_rounds : ℕ → ℕ → ℕ → ℕ
unfolding key_step
key_rounds key zero c = c
key_rounds key (suc k) c = key_rounds key k (key_step key c)

-- for (n = 0; n < 256; ++n), from `n` on with the rounds that are left.
unfoldable pub fill_table : ℕ → ℕ → ℕ → List ℕ → List ℕ
unfolding key_rounds
fill_table key zero n table = table
fill_table key (suc left) n table = fill_table key left (n + 1) (set table n (key_rounds key 8 n))

unfoldable pub init_table : ℕ → List ℕ → List ℕ
unfolding fill_table
init_table key table = fill_table key 256 0 table
