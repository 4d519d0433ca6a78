-- ===== src/Session/Wire.antt =====
-- src/VNetWork/VAsyncServer.hpp: `struct header`, packed, as its bytes on the wire (little-endian).
use native.Mathlib.Nat.{pow-suc}
use model_lib.Common.{
  ℕ, suc, zero, ◌+◌, ◌*◌, ◌/◌, ◌%◌, ◌^◌, ◌<◌, ◌≡◌, refl, ap, List, [], ◌∷◌, ◌++◌, take, drop, arith,
  length,
}

pub record Header : Type 0 where
  pub len : ℕ  -- uint32_t
  pub crc : ℕ  -- uint32_t
  pub seq : ℕ  -- uint32_t
  pub type : ℕ  -- uint16_t

-- 4 + 4 + 4 + 2
abbrev pub header_size : ℕ
header_size = 14

-- A word of `n` bytes, the lowest first, and back.
unfoldable pub to_bytes : ℕ → ℕ → List ℕ
to_bytes zero v = []
to_bytes (suc n) v = v % 256 ∷ to_bytes n (v / 256)

unfoldable pub of_bytes : List ℕ → ℕ
of_bytes [] = 0
of_bytes (b ∷ bs) = b + 256 * of_bytes bs

unfoldable pub encode_header : Header → List ℕ
unfolding to_bytes
encode_header h = to_bytes 4 h.len ++ to_bytes 4 h.crc ++ to_bytes 4 h.seq ++ to_bytes 2 h.type

unfoldable pub decode_header : List ℕ → Header
unfolding of_bytes
decode_header bytes = record {
  len = of_bytes (take 4 bytes);
  crc = of_bytes (take 4 (drop 4 bytes));
  seq = of_bytes (take 4 (drop 8 bytes));
  type = of_bytes (take 2 (drop 12 bytes));
}

pub length-to_bytes : (n v : ℕ) → length (to_bytes n v) ≡ n
unfolding to_bytes
length-to_bytes zero v = refl
length-to_bytes (suc n) v = ap suc (length-to_bytes n (v / 256))

of_bytes-to_bytes : (n v : ℕ) → v < 256 ^ n → of_bytes (to_bytes n v) ≡ v
unfolding to_bytes of_bytes
of_bytes-to_bytes zero v h = omega arith
of_bytes-to_bytes (suc n) v h =
    omega (arith, of_bytes-to_bytes n (v / 256) (omega (arith, pow-suc 256 n)))

-- The fields fit their widths.
pub record InRange (h : Header) : Type 0 where
  pub len_fits : h.len < 2 ^ 32
  pub crc_fits : h.crc < 2 ^ 32
  pub seq_fits : h.seq < 2 ^ 32
  pub type_fits : h.type < 2 ^ 16

pub length-encode_header : (h : Header) → length (encode_header h) ≡ header_size
unfolding encode_header
length-encode_header h = refl

pub decode-encode_header : (h : Header) → InRange h → decode_header (encode_header h) ≡ h
unfolding encode_header decode_header
decode-encode_header h r = λ i. record {
  len = of_bytes-to_bytes 4 h.len r.len_fits i;
  crc = of_bytes-to_bytes 4 h.crc r.crc_fits i;
  seq = of_bytes-to_bytes 4 h.seq r.seq_fits i;
  type = of_bytes-to_bytes 2 h.type r.type_fits i;
}
