-- ===== src/User/Serial.antt =====
-- The CRC that `CheckSecurity` computes, against the bit-serial CRC of the key as polynomial.
mod Linear
mod Table
pub use Linear.{key_rounds-lt}
pub use Table.{get_or-init_table, length-init_table}
use Prim.Native.Nat.{bit_and, bit_xor}
use Linear.{key_rounds_split}
use model_lib.Common.Bits.{bit_and_byte, xor-lt, xor-zero, xor-high}
use model_lib.Common.{
  ℕ, zero, suc, ◌/◌, ◌%◌, ◌^◌, ◌≤◌, ◌<◌, ◌≡◌, refl, sym, ap, ap₂, ◌∙◌, some, List, [], ◌∷◌, length,
  take, drop, get_or, foldl, arith,
}
use model_lib.Crc.{get_crc, crc_loops, not32}
use model_lib.Crc.Loops.{eights-ones, while_ones-foldl, table_byte}
use model_lib.User.SecretKey.{key_rounds, init_table}

-- One byte shifted into the register a bit at a time.
abbrev pub serial_byte : ℕ → ℕ → ℕ → ℕ
serial_byte key crc b = key_rounds key 8 (bit_xor crc b)

-- The textbook CRC: start and result complemented.
abbrev pub serial_crc : ℕ → ℕ → List ℕ → ℕ
serial_crc key crc bytes = not32 (foldl (serial_byte key) (not32 crc) bytes)

abbrev pub IsBytes : List ℕ → Type 0
IsBytes [] = Unit {0}
IsBytes (b ∷ bs) = (b < 2 ^ 8) × IsBytes bs

pub IsBytes-take : (n : ℕ) (bs : List ℕ) → IsBytes bs → IsBytes (take n bs)
IsBytes-take zero bs h = tt
IsBytes-take (suc n) [] h = tt
IsBytes-take (suc n) (b ∷ bs) h = (h.0, IsBytes-take n bs h.1)

-- A table entry of an initialised user does the work of eight serial rounds.
table_byte-serial :
    (key crc b : ℕ) (table : List ℕ)
    → length table ≡ 256
    → b < 2 ^ 8
    → table_byte (init_table key table) crc b ≡ serial_byte key crc b
table_byte-serial key crc b table len hb =
    ap₂ bit_xor entry high ∙ sym (key_rounds_split key (bit_xor crc b))
  where
    entry :
        get_or (init_table key table) (bit_and (bit_xor crc b) 0xff) 0
        ≡ key_rounds key 8 (bit_xor crc b % 2 ^ 8)
    entry =
        rw (bit_and_byte (bit_xor crc b))
          (get_or-init_table key (bit_xor crc b % 2 ^ 8) table len (omega arith))

    high : crc / 2 ^ 8 ≡ bit_xor crc b / 2 ^ 8
    high =
        sym (xor-zero (crc / 2 ^ 8))
        ∙ ap (bit_xor (crc / 2 ^ 8)) (let e : 0 ≡ b / 2 ^ 8 = omega arith in e)
        ∙ sym (xor-high crc b)

foldl-serial :
    (key crc : ℕ) (table bytes : List ℕ)
    → length table ≡ 256
    → IsBytes bytes
    → foldl (table_byte (init_table key table)) crc bytes ≡ foldl (serial_byte key) crc bytes
foldl-serial key crc table [] len h = refl
foldl-serial key crc table (b ∷ bytes) len h =
    rw (table_byte-serial key crc b table len h.0)
      (foldl-serial key (serial_byte key crc b) table bytes len h.1)

-- The register stays a 32-bit word.
pub foldl-serial-lt :
    (key crc : ℕ) (bytes : List ℕ)
    → key < 2 ^ 32
    → crc < 2 ^ 32
    → IsBytes bytes
    → foldl (serial_byte key) crc bytes < 2 ^ 32
foldl-serial-lt key crc [] hk hc h = hc
foldl-serial-lt key crc (b ∷ bytes) hk hc h =
    foldl-serial-lt key (serial_byte key crc b) bytes hk
      (key_rounds-lt key 8 (bit_xor crc b) hk (xor-lt 32 crc b hc (omega (arith, h.0)))) h.1

pub crc_loops-serial :
    (key crc len : ℕ) (buf table : List ℕ)
    → length table ≡ 256
    → len ≤ length buf
    → IsBytes buf
    → crc_loops (init_table key table) crc buf len
      ≡ some (foldl (serial_byte key) (not32 crc) (take len buf), drop len buf)
unfolding crc_loops
crc_loops-serial key crc len buf table size fits bytes =
    rw (eights-ones (init_table key table) len (not32 crc, buf)) (
      rw (while_ones-foldl (init_table key table) len (not32 crc) buf fits)
        (rw (foldl-serial key (not32 crc) table (take len buf) size (IsBytes-take len buf bytes))))

-- With the table of the key, `GetCRC` over a buffer of at least `len` bytes reads nothing past it and
-- returns the bit-serial CRC of its first `len` bytes.
pub get_crc-serial :
    (key crc len : ℕ) (buf table : List ℕ)
    → length table ≡ 256
    → len ≤ length buf
    → IsBytes buf
    → get_crc crc buf len (init_table key table) ≡ some (serial_crc key crc (take len buf))
unfolding get_crc
get_crc-serial key crc len buf table size fits bytes =
    rw (crc_loops-serial key crc len buf table size fits bytes)
