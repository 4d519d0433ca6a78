-- ===== src/System/Console.antt =====
-- What the console takes from its lines, and the directory that the program enters.
use model_lib.Common.{
  ℕ, zero, suc, ◌+◌, ◌-◌, ◌≤◌, ◌≡◌, ◌≢◌, refl, ap, ◌⊎◌, inl, inr, true, false, List, [], ◌∷◌, ◌++◌,
  length, take, replicate, map, All, arith, ==_ne, ℕ_discrete, dec_lt, leb,
}
use model_lib.Config.{Text}
use model_lib.System.{Action, global_chat, console, command, notice_text, buffer_size}

-- The first 64 bytes of a text, filled up with zeros.
abbrev pub cut_or_padded : Text → List ℕ
cut_or_padded text = take 64 text ++ replicate (64 - length text) 0

take_nil : (n : ℕ) → take {A = ℕ} n [] ≡ []
take_nil zero = refl
take_nil (suc n) = refl

take-padded :
    (n k : ℕ) (text : List ℕ)
    → n ≤ length text + k
    → take n (text ++ replicate k 0) ≡ take n text ++ replicate (n - length text) 0
take-padded zero k text h = let z : 0 - length text ≡ 0 = omega arith in rw z refl
take-padded (suc n) zero [] h = absurd (omega arith)
take-padded (suc n) (suc k) [] h =
    let e : suc n - 0 ≡ suc (n - 0) = omega arith in
    let ih = rw (take_nil n) at (take-padded n k [] (omega arith)) in rw e (ap (◌∷◌ 0) ih)
take-padded (suc n) k (c ∷ text) h =
    let e : suc n - suc (length text) ≡ n - length text = omega arith in
    rw e (ap (◌∷◌ c) (take-padded n k text (omega arith)))

notice_text-cut :
    (c : ℕ) (text : Text) → length text ≤ 253 → notice_text (c ∷ text) ≡ cut_or_padded text
unfolding notice_text
notice_text-cut c text h = take-padded 64 (buffer_size - suc (length text)) text (omega arith)

-- What the lines typed ask for: the notices to send, each of 64 bytes. q and Q quit, and so does a line of 255
-- characters or more. s sends the rest of its line, S only where another character follows.
pub data Says : List Text → List (List ℕ) → Type 0 where
  ended : Says [] []
  quits :
      (c : ℕ) (text : Text) (lines : List Text)
      → (c ≡ 113) ⊎ (c ≡ 81)
      → Says ((c ∷ text) ∷ lines) []
  overlong : (line : Text) (lines : List Text) → 255 ≤ length line → Says (line ∷ lines) []
  sends :
      {text : Text} {lines : List Text} {ns : List (List ℕ)}
      → length text ≤ 253
      → Says lines ns
      → Says ((115 ∷ text) ∷ lines) (cut_or_padded text ∷ ns)
  sends_upper :
      {c : ℕ} {text : Text} {lines : List Text} {ns : List (List ℕ)}
      → c ≢ 0
      → length text ≤ 252
      → Says lines ns
      → Says ((83 ∷ c ∷ text) ∷ lines) (cut_or_padded (c ∷ text) ∷ ns)
  bare : {lines : List Text} {ns : List (List ℕ)} → Says lines ns → Says ((83 ∷ []) ∷ lines) ns
  bare_zero :
      {text : Text} {lines : List Text} {ns : List (List ℕ)}
      → length text ≤ 252
      → Says lines ns
      → Says ((83 ∷ 0 ∷ text) ∷ lines) ns
  empty : {lines : List Text} {ns : List (List ℕ)} → Says lines ns → Says ([] ∷ lines) ns
  other :
      {c : ℕ} {text : Text} {lines : List Text} {ns : List (List ℕ)}
      → (c ≢ 113) × (c ≢ 81) × (c ≢ 115) × (c ≢ 83)
      → length text ≤ 253
      → Says lines ns
      → Says ((c ∷ text) ∷ lines) ns

abbrev pub notices : List ℕ → List (List ℕ) → List Action
notices header = map (λ n. global_chat (header ++ n))

-- The console with these lines sends what they ask for.
abbrev pub Sends : List ℕ → List Text → Type 0
Sends header lines =
    (ns : List (List ℕ)) × Says lines ns × (console header lines ≡ notices header ns)

module _ (header : List ℕ) (lines : List Text) (rest : Sends header lines) where
  send_upper : (text : Text) → length text ≤ 253 → Sends header ((83 ∷ text) ∷ lines)
  unfolding console command
  send_upper [] h = (rest.0, bare rest.1, rest.2)
  send_upper (c ∷ text) h =
      let short : leb 255 (suc (suc (length text))) ≡ false = ground arith in
      elim (ℕ_discrete c 0) [
        | yes z ↦ rw z (rest.0, bare_zero (omega arith) rest.1, rw short rest.2)
        | no ne ↦ (
          cut_or_padded (c ∷ text) ∷ rest.0,
          sends_upper ne (omega arith) rest.1,
          rw (short, ==_ne c 0 ne, notice_text-cut 83 (c ∷ text) h)
              (ap (◌∷◌ (global_chat (header ++ cut_or_padded (c ∷ text)))) rest.2),
        )
      ]

  send_lower : (text : Text) → length text ≤ 253 → Sends header ((115 ∷ text) ∷ lines)
  unfolding console command
  send_lower text h =
      let short : leb 255 (suc (length text)) ≡ false = ground arith in
      (
        cut_or_padded text ∷ rest.0,
        sends h rest.1,
        rw (short, notice_text-cut 115 text h)
            (ap (◌∷◌ (global_chat (header ++ cut_or_padded text))) rest.2),
      )

  starts_with : (c : ℕ) (text : Text) → length text ≤ 253 → Sends header ((c ∷ text) ∷ lines)
  unfolding console command
  starts_with c text h =
      let short : leb 255 (suc (length text)) ≡ false = ground arith in
      elim (ℕ_discrete c 113) [
        | yes q ↦ ([], quits c text lines (inl q), rw (q, short) refl)
        | no q ↦ elim (ℕ_discrete c 81) [
          | yes q' ↦ ([], quits c text lines (inr q'), rw (q', short) refl)
          | no q' ↦ elim (ℕ_discrete c 115) [
            | yes s ↦ rw s (send_lower text h)
            | no s ↦ elim (ℕ_discrete c 83) [
              | yes s' ↦ rw s' (send_upper text h)
              | no s' ↦ (
                rest.0,
                other (q, q', s, s') h rest.1,
                rw (short, ==_ne c 113 q, ==_ne c 81 q', ==_ne c 115 s, ==_ne c 83 s') rest.2,
              )
            ]
          ]
        ]
      ]

-- The console sends exactly what its lines ask for, in order: a line that starts with s, or with S and another
-- character, gives a notice of 64 bytes behind the header, the text after the first character cut or
-- filled up with zeros; other lines give none; and a line that starts with q or Q, or has 255 characters
-- or more, ends it.
pub console-sends :
    (header : List ℕ) (lines : List Text)
    → (ns : List (List ℕ)) × Says lines ns × (console header lines ≡ notices header ns)
unfolding console command
console-sends header [] = ([], ended, refl)
console-sends header ([] ∷ lines) =
    let (ns, says, e) = console-sends header lines in (ns, empty says, e)
console-sends header ((c ∷ text) ∷ lines) = elim (dec_lt 253 (length text)) [
  | yes long ↦
      let ends : leb 255 (suc (length text)) ≡ true = ground arith in
      ([], overlong (c ∷ text) lines (omega arith), rw ends refl)
  | no short ↦ starts_with header lines (console-sends header lines) c text (omega arith)
]

-- No separator in a text.
abbrev pub IsName : ℕ → Text → Type 0
IsName sep = All (λ c. c ≢ sep)
