-- ===== src/Crc/Standard.antt =====
-- src/VCommon/crc32.h: the overload of `GetCRC` with the constant table.
use model_lib.Common.{
  ℕ, zero, suc, ◌≤◌, ◌<◌, ◌≡◌, refl, some, List, length, take, drop, foldl, replicate,
}
use model_lib.Crc.{Cursor, get_crc_default, crc_loops, not32}
use model_lib.Crc.DefaultTable.{default_table}
use model_lib.User.SecretKey.{init_table}
use model_lib.User.Serial.{IsBytes, serial_byte, crc_loops-serial}

-- The polynomial of CRC-32, bits reversed.
abbrev pub crc32_key : ℕ
crc32_key = 0xedb88320

-- The constant table is the one that `InitSecretKey` computes for that polynomial.
pub default_table-init_table : default_table ≡ init_table crc32_key (replicate 256 0)
unfolding init_table
default_table-init_table = refl

zero_after :
    (crc len : ℕ) (buf : List ℕ) {s : Cursor}
    → 0 < len
    → crc_loops default_table crc buf len ≡ some s
    → get_crc_default crc (some buf) len ≡ some 0
unfolding get_crc_default
zero_after crc zero buf pos run = refl
zero_after crc (suc len) buf pos run = rw run

-- Over a buffer that is not null and holds the `len` bytes, the loops leave the register of the bit-serial
-- CRC-32, whose complement would be the checksum; yet `GetCRC` returns 0, whatever the bytes are.
pub get_crc_default-zero :
    (crc len : ℕ) (buf : List ℕ)
    → 0 < len
    → len ≤ length buf
    → IsBytes buf
    → (crc_loops default_table crc buf len
        ≡ some (foldl (serial_byte crc32_key) (not32 crc) (take len buf), drop len buf))
      × (get_crc_default crc (some buf) len ≡ some 0)
get_crc_default-zero crc len buf pos fits bytes = (loops, zero_after crc len buf pos loops)
  where
    loops :
        crc_loops default_table crc buf len
        ≡ some (foldl (serial_byte crc32_key) (not32 crc) (take len buf), drop len buf)
    loops =
        rw default_table-init_table
          (crc_loops-serial crc32_key crc len buf (replicate 256 0) refl fits bytes)
