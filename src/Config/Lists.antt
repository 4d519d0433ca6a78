-- ===== src/Config/Lists.antt =====
-- The two lists for match-making that `Start` reads.
use native.Mathlib.Nat.{le_refl}
use model_lib.Common.{
  ℕ, zero, suc, ◌+◌, ◌≤◌, ◌<◌, ◌≡◌, refl, ◌⊎◌, inl, inr, Option, none, some, List, [], length,
  get_or, set, length-set, get_or-set_self, get_or-set_ne, arith, Option-cases, ℕ_discrete,
}
use model_lib.Common.Int.{ℤ, pos}
use model_lib.Config.{
  Text, Config, Environment, Parsed, num_players, load_lists, list_size, notify, set_addresses,
  start_parsed, start_from, start, stored, default_address, opt_chat_address,
  opt_web_service_address, opt_match_making_delta, opt_match_making_min_room,
}

-- Entries `from` to `to` are the values of the words, and the others are as they were.
pub record Filled (cast : Text → Option ℤ) (words : List Text) (from to : ℕ) (old new : List ℤ)
    : Type 0 where
  pub size : length new ≡ length old
  pub inside : (j : ℕ) → from ≤ j → j < to → cast (get_or words j []) ≡ some (get_or new j (pos 0))
  pub below : (j : ℕ) → j < from → get_or new j (pos 0) ≡ get_or old j (pos 0)
  pub beyond : (j : ℕ) → to ≤ j → get_or new j (pos 0) ≡ get_or old j (pos 0)

Filled-empty :
    (cast : Text → Option ℤ) (words : List Text) (i : ℕ) (old : List ℤ)
    → Filled cast words i i old old
Filled-empty cast words i old = record {
  size = refl;
  inside = λ j le lt. absurd (omega arith);
  below = λ j lt. refl;
  beyond = λ j le. refl;
}

Filled-step :
    (cast : Text → Option ℤ) (words : List Text) (i to : ℕ) (v : ℤ) (old new : List ℤ)
    → i < to
    → i < length old
    → cast (get_or words i []) ≡ some v
    → Filled cast words (i + 1) to (set old i v) new
    → Filled cast words i to old new
Filled-step cast words i to v old new lt fits e f = record {
  size = omega (arith, f.size, length-set old i v);
  inside = λ j le lt'. elim (ℕ_discrete j i) [
    | yes same ↦ rw (same, e, f.below i (omega arith), get_or-set_self old i v (pos 0) fits) refl
    | no ne ↦ f.inside j (omega arith) lt'
  ];
  below = λ j lt'.
      rw (f.below j (omega arith)) (get_or-set_ne old i j v (pos 0) (λ e'. absurd (omega arith)));
  beyond =
      λ j le. rw (f.beyond j le) (get_or-set_ne old i j v (pos 0) (λ e'. absurd (omega arith)));
}

-- One of the words that the loop reads is no number.
abbrev pub Unreadable : (Text → Option ℤ) → List Text → List Text → ℕ → ℕ → Type 0
Unreadable cast delta room from to =
    (j : ℕ) × (from ≤ j)
    × (j < to)
    × ((cast (get_or delta j []) ≡ none) ⊎ (cast (get_or room j []) ≡ none))

load_lists-Filled :
    (cast : Text → Option ℤ) (n i to : ℕ) (delta room : List Text) (d r : List ℤ)
    → to ≡ i + n
    → to ≤ length d
    → to ≤ length r
    → (Unreadable cast delta room i to × (load_lists cast n i delta room (d, r) ≡ none))
      ⊎ ((d' : List ℤ) × (r' : List ℤ) × (load_lists cast n i delta room (d, r) ≡ some (d', r'))
          × Filled cast delta i to d d'
          × Filled cast room i to r r')
unfolding load_lists
load_lists-Filled cast zero i to delta room d r e fd fr =
    let here : to ≡ i = omega arith in
    inr (d, r, refl, rw here (Filled-empty cast delta i d), rw here (Filled-empty cast room i r))
load_lists-Filled cast (suc n) i to delta room d r e fd fr =
    elim (Option-cases (cast (get_or delta i []))) [
      | inl bad ↦ inl ((i, le_refl i, omega arith, inl bad), rw bad refl)
      | inr (dv, good) ↦ elim (Option-cases (cast (get_or room i []))) [
        | inl bad ↦ inl ((i, le_refl i, omega arith, inr bad), rw (good, bad) refl)
        | inr (rv, good') ↦
            rw (good, good')
              (elim (load_lists-Filled cast n (i + 1) to delta room (set d i dv) (set r i rv)
                (omega arith) (omega (arith, length-set d i dv))
                (omega (arith, length-set r i rv))) [
                  | inl ((j, le, lt, bad), stops) ↦ inl ((j, omega arith, lt, bad), stops)
                  | inr (d', r', run, f, g) ↦ inr (
                    d',
                    r',
                    run,
                    Filled-step cast delta i to dv d d' (omega arith) (omega arith) good f,
                    Filled-step cast room i to rv r r' (omega arith) (omega arith) good' g,
                  )
                ])
      ]
    ]

-- The words of the two lists in a file.
abbrev pub delta_words : Environment → Parsed → List Text
delta_words env p = env.split (stored [] (p.text_value opt_match_making_delta))

abbrev pub room_words : Environment → Parsed → List Text
room_words env p = env.split (stored [] (p.text_value opt_match_making_min_room))

-- What the two arrays are after `Start`, or why it throws.
abbrev pub Loads : Environment → Parsed → Config → Option Config → Type 0
Loads env p c started =
    let n = list_size (delta_words env p) (room_words env p) in
    (Unreadable env.cast (delta_words env p) (room_words env p) 0 n × (started ≡ none))
    ⊎ ((c' : Config) × (started ≡ some c')
        × Filled env.cast (delta_words env p) 0 n c.match_making_delta c'.match_making_delta
        × Filled env.cast (room_words env p) 0 n c.min_mm_room c'.min_mm_room)

start_parsed-Loads :
    (env : Environment) (p : Parsed) (c : Config)
    → length c.match_making_delta ≡ num_players
    → length c.min_mm_room ≡ num_players
    → Loads env p c (start_parsed env p c)
unfolding start_parsed list_size notify set_addresses
start_parsed-Loads env p c ld lr =
    elim (load_lists-Filled env.cast n 0 n (delta_words env p) (room_words env p)
      c.match_making_delta c.min_mm_room (omega arith) (omega (arith, ld)) (omega (arith, lr))) [
        | inl (bad, stops) ↦ inl (bad, rw stops refl)
        | inr (d, r, run, f, g) ↦
            let chat = stored default_address (p.text_value opt_chat_address) in
            let web = stored default_address (p.text_value opt_web_service_address) in
            let after =
              set_addresses chat web
                (record (notify p c) { match_making_delta = d; min_mm_room = r }) in
            inr (after, rw run refl, f, g)
      ]
  where
    n : ℕ
    n = list_size (delta_words env p) (room_words env p)

-- With a file: the entries of both arrays up to the shorter list, and at most five, become the values of its
-- words in order, and the others stay what the memory held before; `Start` throws exactly where one
-- of those words is no number.
pub start-Loads :
    (env : Environment) (p : Parsed) (c : Config)
    → env.file ≡ some (some p)
    → length c.match_making_delta ≡ num_players
    → length c.min_mm_room ≡ num_players
    → Loads env p c (start env c)
unfolding start start_from
start-Loads env p c file ld lr = simp file (start_parsed-Loads env p c ld lr)
