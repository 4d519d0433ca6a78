-- ===== src/Examples/Crc.antt =====
-- src/VNetWork/VUser.cpp and src/VCommon/crc32.h: keys, checksums and sequence numbers at concrete inputs.
use model_lib.Common.{
  ℕ, ◌+◌, ◌%◌, ◌^◌, ◌≡◌, refl, some, List, [], ◌∷◌, length, take, drop, foldl, replicate, arith,
}
use model_lib.Crc.{get_crc, get_crc_default, crc_loops, not32}
use model_lib.Crc.Standard.{crc32_key, get_crc_default-zero}
use model_lib.Crc.DefaultTable.{default_table}
use model_lib.User.{User, new_user, init_secret_key}
use model_lib.User.SecretKey.{init_table}
use model_lib.User.Serial.{serial_crc, serial_byte, get_crc-serial}
use model_lib.User.Security.{
  HasKey, Packet, accepted, Consecutive, init_secret_key-HasKey, accepted-Consecutive,
}

-- "123456789"
abbrev digits : List ℕ
digits = 49 ∷ 50 ∷ 51 ∷ 52 ∷ 53 ∷ 54 ∷ 55 ∷ 56 ∷ 57 ∷ []

-- The published check value of CRC-32.
check_value : get_crc 0 digits 9 (init_table 0xedb88320 (replicate 256 0)) ≡ some 0xcbf43926
unfolding get_crc init_table
check_value = refl

abbrev fresh_user : User
fresh_user = new_user 0 (replicate 256 0)

abbrev keyed_user : User
keyed_user = init_secret_key 0xedb88320 fresh_user

keyed_user-HasKey : HasKey keyed_user
unfolding new_user
keyed_user-HasKey = (init_secret_key-HasKey 0xedb88320 fresh_user refl).0

get_crc-serial_example :
    get_crc 0 digits 9 (init_table 0xedb88320 (replicate 256 0))
    ≡ some (serial_crc 0xedb88320 0 (take 9 digits))
get_crc-serial_example =
    get_crc-serial 0xedb88320 0 9 digits (replicate 256 0) refl (omega arith) (omega arith)

-- Two empty packets numbered 0 and 1, a replay of the first between them, and one numbered 5.
abbrev history : List Packet
history = packet 0 ∷ packet 0 ∷ packet 1 ∷ packet 5 ∷ []
  where
    packet : ℕ → Packet
    packet n = record { crc = 0; seq = n; body = [] }

accepted-Consecutive_example :
    (v : User) × (qs : List Packet) × (accepted keyed_user history ≡ some (v, qs))
    × Consecutive keyed_user.seq qs
    × (v.seq ≡ (keyed_user.seq + length qs) % 2 ^ 32)
    × (v.key ≡ keyed_user.key)
accepted-Consecutive_example =
    accepted-Consecutive keyed_user history keyed_user-HasKey (tt, (tt, (tt, (tt, tt))))

get_crc_default-zero_example :
    (crc_loops default_table 0 digits 9
      ≡ some (foldl (serial_byte crc32_key) (not32 0) (take 9 digits), drop 9 digits))
    × (get_crc_default 0 (some digits) 9 ≡ some 0)
get_crc_default-zero_example =
    get_crc_default-zero 0 9 digits (omega arith) (omega arith) (omega arith)
