-- ===== src/Crc.antt =====
-- src/VCommon/crc32.h: the two overloads of `GetCRC`. A buffer is the list of its bytes; `none` is a read
-- past its end. Words are 32 bits wide: no operation here can leave that range, since a table entry
-- and a shifted word are below 2 ^ 32.
pub mod DefaultTable
pub mod Loops
pub mod Standard
use Prim.Native.Nat.{bit_and, bit_xor}
use model_lib.Common.{ℕ, zero, suc, ◌-◌, ◌/◌, ◌^◌, Option, none, some, ◌>>=◌, List, [], ◌∷◌, get_or}
use DefaultTable.{default_table}

-- `CRC ^ 0xffffffff`, which is `~CRC`.
abbrev pub not32 : ℕ → ℕ
not32 c = 2 ^ 32 - 1 - c

-- The running CRC and what `pBuf` still points at.
abbrev pub Cursor : Type 0
Cursor = ℕ × List ℕ

-- DO1_BYTE(pBuf): CRC = table[(CRC ^ *pBuf++) & 0xff] ^ (CRC >> 8)
unfoldable pub do1_byte : List ℕ → Cursor → Option Cursor
do1_byte table (crc, []) = none
do1_byte table (crc, b ∷ rest) =
    some (bit_xor (get_or table (bit_and (bit_xor crc b) 0xff) 0) (crc / 2 ^ 8), rest)

-- while (nLen >= 8) { DO1_BYTE × 8; nLen -= 8; }, with the length that is left.
unfoldable pub while_eights : List ℕ → ℕ → Cursor → Option (ℕ × Cursor)
unfolding do1_byte
while_eights table (suc (suc (suc (suc (suc (suc (suc (suc len)))))))) s = do
  s1 ← do1_byte table s
  s2 ← do1_byte table s1
  s3 ← do1_byte table s2
  s4 ← do1_byte table s3
  s5 ← do1_byte table s4
  s6 ← do1_byte table s5
  s7 ← do1_byte table s6
  s8 ← do1_byte table s7
  while_eights table len s8
while_eights table len s = some (len, s)

-- while (nLen--) { DO1_BYTE }
unfoldable pub while_ones : List ℕ → ℕ → Cursor → Option Cursor
unfolding do1_byte
while_ones table zero s = some s
while_ones table (suc len) s = do s' ← do1_byte table s; while_ones table len s'

-- Both loops, from the complemented start value.
unfoldable pub crc_loops : List ℕ → ℕ → List ℕ → ℕ → Option Cursor
unfolding while_eights while_ones
crc_loops table crc buf len = do
  (left, s) ← while_eights table len (not32 crc, buf)
  while_ones table left s

-- GetCRC(CRC, pBuffer, nLen, CrcTable)
unfoldable pub get_crc : ℕ → List ℕ → ℕ → List ℕ → Option ℕ
unfolding crc_loops
get_crc crc buf len table = do s ← crc_loops table crc buf len; some (not32 s.0)

-- GetCRC(CRC, pBuffer, nLen): a null buffer is `none`. The loops run, and the result is 0.
unfoldable pub get_crc_default : ℕ → Option (List ℕ) → ℕ → Option ℕ
unfolding crc_loops
get_crc_default crc none len = some 0
get_crc_default crc (some buf) zero = some 0
get_crc_default crc (some buf) (suc len) = do s ← crc_loops default_table crc buf (suc len); some 0
