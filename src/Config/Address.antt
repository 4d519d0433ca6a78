-- ===== src/Config/Address.antt =====
-- The address and the port of the chat server, from one text.
use model_lib.Common.{
  ℕ, zero, suc, ◌+◌, ◌≡◌, ◌≢◌, refl, [], ◌∷◌, ◌++◌, length, take-append, drop, All, arith, ==_ne,
}
use model_lib.Common.Int.{pos, negsuc}
use model_lib.Config.{Text, Config, find_colon, before, behind, set_addresses}

-- ':'
abbrev pub colon : ℕ
colon = 58

-- A text with no colon.
abbrev pub IsPlain : Text → Type 0
IsPlain = All (λ c. c ≢ colon)

find_colon-first :
    (host port : Text) (i : ℕ)
    → IsPlain host
    → find_colon (host ++ colon ∷ port) i ≡ pos (i + length host)
unfolding find_colon
find_colon-first [] port i plain = ground arith
find_colon-first (c ∷ cs) port i plain =
    let here : i + 1 + length cs ≡ i + length (c ∷ cs) = omega arith in
    rw (==_ne c colon plain.0, find_colon-first cs port (i + 1) plain.1, here) refl

find_colon-none : (text : Text) (i : ℕ) → IsPlain text → find_colon text i ≡ negsuc 0
unfolding find_colon
find_colon-none [] i plain = refl
find_colon-none (c ∷ cs) i plain = rw (==_ne c colon plain.0) (find_colon-none cs (i + 1) plain.1)

drop_past : (xs ys : Text) (c n : ℕ) → n ≡ length xs + 1 → drop n (xs ++ c ∷ ys) ≡ ys
drop_past xs ys c zero e = absurd (omega arith)
drop_past [] ys c (suc n) e = let z : n ≡ 0 = omega arith in rw z refl
drop_past (x ∷ xs) ys c (suc n) e = drop_past xs ys c n (omega arith)

-- A host without a colon and a port, written with a colon between them, are read back; the port may have
-- colons itself. A text without a colon becomes both the address and the port.
pub set_addresses-splits :
    (host port web : Text) (c : Config)
    → IsPlain host
    → let split = set_addresses (host ++ colon ∷ port) web c in
      let whole = set_addresses host web c in
      (split.chat_addr ≡ host)
      × (split.chat_port ≡ port)
      × (whole.chat_addr ≡ host)
      × (whole.chat_port ≡ host)
unfolding set_addresses before behind
set_addresses-splits host port web c plain = (
  rw found (take-append host (colon ∷ port) (length host) refl),
  rw found (drop_past host port colon (length host + 1) refl),
  rw (find_colon-none host 0 plain) refl,
  rw (find_colon-none host 0 plain) refl,
)
  where
    found : find_colon (host ++ colon ∷ port) 0 ≡ pos (length host)
    found =
        let e : 0 + length host ≡ length host = omega arith in
        rw (find_colon-first host port 0 plain, e) refl
