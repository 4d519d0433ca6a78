-- ===== src/User/Serial/Linear.antt =====
-- The inner loop of `InitSecretKey` is linear in the register, which is why a table serves.
use Prim.Native.Nat.{bit_xor}
use model_lib.Common.Bits.{
  bit_and_one, xor_comm, xor_assoc, xor_self, zero-xor, xor-half, xor-parity, xor-lt, xor_fields,
  shift-suc,
}
use model_lib.Common.{
  ℕ, zero, suc, ◌+◌, ◌*◌, ◌/◌, ◌%◌, ◌^◌, ◌<◌, ◌≡◌, refl, sym, ap, ◌∙◌, inl, inr, ◌⊎◌, arith,
}
use model_lib.User.SecretKey.{key_step, key_rounds}

key_step_even : (key c : ℕ) → c % 2 ≡ 0 → key_step key c ≡ c / 2
unfolding key_step
key_step_even key c h = ground (arith, bit_and_one c)

key_step_odd : (key c : ℕ) → c % 2 ≡ 1 → key_step key c ≡ bit_xor key (c / 2)
unfolding key_step
key_step_odd key c h = ground (arith, bit_and_one c)

parity : (c : ℕ) → (c % 2 ≡ 0) ⊎ (c % 2 ≡ 1)
parity c = omega arith

-- k ^ (a ^ b) with the key on either argument, and on both.
xor_left : (k a b : ℕ) → bit_xor a (bit_xor k b) ≡ bit_xor k (bit_xor a b)
xor_left k a b =
    sym (xor_assoc a k b) ∙ ap (λ (t : ℕ). bit_xor t b) (xor_comm a k) ∙ xor_assoc k a b

xor_cancel : (k a b : ℕ) → bit_xor (bit_xor k a) (bit_xor k b) ≡ bit_xor a b
xor_cancel k a b =
    xor_assoc k a (bit_xor k b)
    ∙ ap (bit_xor k) (xor_left k a b)
    ∙ sym (xor_assoc k k (bit_xor a b))
    ∙ ap (λ (t : ℕ). bit_xor t (bit_xor a b)) (xor_self k)
    ∙ zero-xor (bit_xor a b)

key_step-xor :
    (key a b : ℕ) → key_step key (bit_xor a b) ≡ bit_xor (key_step key a) (key_step key b)
key_step-xor key a b = elim (parity a) [
  | inl ea ↦ elim (parity b) [
    | inl eb ↦
        rw
          (
            key_step_even key (bit_xor a b) (omega (arith, xor-parity a b)),
            key_step_even key a ea,
            key_step_even key b eb,
          )
          (xor-half a b)
    | inr ob ↦
        rw
          (
            key_step_odd key (bit_xor a b) (omega (arith, xor-parity a b)),
            key_step_even key a ea,
            key_step_odd key b ob,
          )
          (ap (bit_xor key) (xor-half a b) ∙ sym (xor_left key (a / 2) (b / 2)))
  ]
  | inr oa ↦ elim (parity b) [
    | inl eb ↦
        rw
          (
            key_step_odd key (bit_xor a b) (omega (arith, xor-parity a b)),
            key_step_odd key a oa,
            key_step_even key b eb,
          )
          (ap (bit_xor key) (xor-half a b) ∙ sym (xor_assoc key (a / 2) (b / 2)))
    | inr ob ↦
        rw
          (
            key_step_even key (bit_xor a b) (omega (arith, xor-parity a b)),
            key_step_odd key a oa,
            key_step_odd key b ob,
          )
          (xor-half a b ∙ sym (xor_cancel key (a / 2) (b / 2)))
  ]
]

key_rounds-xor :
    (key n a b : ℕ)
    → key_rounds key n (bit_xor a b) ≡ bit_xor (key_rounds key n a) (key_rounds key n b)
unfolding key_rounds
key_rounds-xor key zero a b = refl
key_rounds-xor key (suc n) a b =
    ap (key_rounds key n) (key_step-xor key a b)
    ∙ key_rounds-xor key n (key_step key a) (key_step key b)

-- Zeros in the low digits are shifted out and the key is never added.
key_rounds_shift : (key n h : ℕ) → key_rounds key n (h * 2 ^ n) ≡ h
unfolding key_rounds
key_rounds_shift key zero h = omega arith
key_rounds_shift key (suc n) h =
    ap (key_rounds key n)
      (key_step_even key (h * 2 ^ suc n) (omega (arith, double)) ∙ omega (arith, double))
    ∙ key_rounds_shift key n h
  where
    double : h * 2 ^ suc n ≡ h * 2 ^ n + h * 2 ^ n
    double = shift-suc h n

-- Eight rounds: the table's entry for the low byte, and the rest shifted down.
pub key_rounds_split :
    (key c : ℕ) → key_rounds key 8 c ≡ bit_xor (key_rounds key 8 (c % 2 ^ 8)) (c / 2 ^ 8)
key_rounds_split key c =
    ap (key_rounds key 8) fields
    ∙ key_rounds-xor key 8 (c / 2 ^ 8 * 2 ^ 8) (c % 2 ^ 8)
    ∙ ap (λ (t : ℕ). bit_xor t (key_rounds key 8 (c % 2 ^ 8))) (key_rounds_shift key 8 (c / 2 ^ 8))
    ∙ xor_comm (c / 2 ^ 8) (key_rounds key 8 (c % 2 ^ 8))
  where
    fields : c ≡ bit_xor (c / 2 ^ 8 * 2 ^ 8) (c % 2 ^ 8)
    fields = omega (arith, xor_fields (c / 2 ^ 8) (c % 2 ^ 8) (omega arith))

key_step-lt : (key c : ℕ) → key < 2 ^ 32 → c < 2 ^ 32 → key_step key c < 2 ^ 32
unfolding key_step
key_step-lt key c hk hc = ground (arith, xor-lt 32 key (c / 2))

pub key_rounds-lt : (key n c : ℕ) → key < 2 ^ 32 → c < 2 ^ 32 → key_rounds key n c < 2 ^ 32
unfolding key_rounds
key_rounds-lt key zero c hk hc = hc
key_rounds-lt key (suc n) c hk hc =
    key_rounds-lt key n (key_step key c) hk (key_step-lt key c hk hc)
