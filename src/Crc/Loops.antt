-- ===== src/Crc/Loops.antt =====
-- The two loops of `GetCRC` together, as one recursion over the bytes.
use Prim.Native.Nat.{bit_and, bit_xor}
use model_lib.Common.{
  ℕ, zero, suc, ◌≤◌, ◌/◌, ◌^◌, ◌≡◌, refl, some, ◌>>=◌, >>=_assoc, List, [], ◌∷◌, get_or, arith,
  length, take, drop, foldl,
}
use model_lib.Crc.{Cursor, do1_byte, while_eights, while_ones}

-- The eight-byte rounds and then the single bytes do what single bytes alone do.
pub eights-ones :
    (table : List ℕ) (len : ℕ) (s : Cursor)
    → (while_eights table len s >>= λ r. while_ones table r.0 r.1) ≡ while_ones table len s
unfolding while_eights while_ones
eights-ones table (suc (suc (suc (suc (suc (suc (suc (suc len)))))))) s =
    simp (>>=_assoc, eights-ones table len)
eights-ones table _ s = refl

-- The CRC after one byte of the table-driven loop.
abbrev pub table_byte : List ℕ → ℕ → ℕ → ℕ
table_byte table crc b = bit_xor (get_or table (bit_and (bit_xor crc b) 0xff) 0) (crc / 2 ^ 8)

-- Where the buffer is long enough no read faults, and the CRC is a fold over the bytes read.
pub while_ones-foldl :
    (table : List ℕ) (len crc : ℕ) (buf : List ℕ)
    → len ≤ length buf
    → while_ones table len (crc, buf)
      ≡ some (foldl (table_byte table) crc (take len buf), drop len buf)
unfolding while_ones do1_byte
while_ones-foldl table zero crc buf h = refl
while_ones-foldl table (suc len) crc [] h = absurd (omega arith)
while_ones-foldl table (suc len) crc (b ∷ buf) h =
    while_ones-foldl table len (table_byte table crc b) buf (omega arith)
