-- ===== src/CircularStack/Window.antt =====
-- Where the last `n` pushed elements stand in the array.
use native.Mathlib.Nat.{mod-lt, mod-eq_of_lt}
use model_lib.Common.{
  ℕ, ◌+◌, ◌-◌, ◌%◌, ◌≤◌, ◌<◌, ◌≡◌, ◌≢◌, refl, ◌∙◌, sym, ap, List, [], ◌∷◌, ◌++◌, length, get_or,
  set, take, drop, length-append, length-set, length-take, length-drop, get_or_ext,
  get_or-append_left, get_or-append_right, get_or-take, get_or-drop, dec_lt, get_or-set_self,
  get_or-set_ne, arith, ℕ_discrete,
}

-- Two positions less than `n` apart go to different places.
mod-ne : (n i j : ℕ) → i < j → j < i + n → i % n ≢ j % n
mod-ne n i j lt near e = grind arith

mod_first : (n len j : ℕ) → n ≤ len → j < n - len % n → (len - n + j) % n ≡ len % n + j
mod_first n len j full lt = grind arith

mod_second :
    (n len j : ℕ) → n ≤ len → n - len % n ≤ j → j < n → (len - n + j) % n ≡ j - (n - len % n)
mod_second n len j full ge lt = grind arith

-- The array of `n` places after the pushes `hist`, oldest first: place `i % n` holds the push number `i`
-- for each of the last `n`.
pub record Window {ℓ} {A : Type ℓ} (d : A) (n : ℕ) (hist datas : List A) : Type ℓ where
  pub sized : length datas ≡ n
  pub held :
      (i : ℕ) → i < length hist → length hist ≤ i + n → get_or datas (i % n) d ≡ get_or hist i d

module _ {ℓ} {A : Type ℓ} (d : A) (n : ℕ) (pos : 0 < n) where
  pub Window-nil : (datas : List A) → length datas ≡ n → Window d n [] datas
  Window-nil datas e = record { sized = e; held = λ i h le. elim h [ ] }

  pub Window-push :
      (hist datas : List A) (t : A)
      → Window d n hist datas
      → Window d n (hist ++ t ∷ []) (set datas (length hist % n) t)
  Window-push hist datas t w = record {
    sized = length-set datas (length hist % n) t ∙ w.sized;
    held = λ i h near. elim (ℕ_discrete i (length hist)) [
      | yes e ↦ rw e (
          get_or-set_self datas (length hist % n) t d (rw w.sized (mod-lt (length hist) pos))
          ∙ sym (get_or-append_right hist (t ∷ []) (length hist) 0 d (omega arith)))
      | no ne ↦
          let in_range : i < length hist = omega (arith, length-append hist (t ∷ [])) in
          let reach : length hist < i + n = omega (arith, length-append hist (t ∷ [])) in
          get_or-set_ne datas (length hist % n) (i % n) t d
            (λ q. mod-ne n i (length hist) in_range reach (sym q))
          ∙ w.held i in_range (omega arith)
          ∙ sym (get_or-append_left hist (t ∷ []) i d in_range)
    ];
  }

  -- The two pieces that `get` copies, in order, are the last `n` pushes.
  pub Window-full :
      (hist datas : List A)
      → Window d n hist datas
      → n ≤ length hist
      → drop (length hist % n) datas ++ take (length hist % n) datas ≡ drop (length hist - n) hist
  Window-full hist datas w full = get_or_ext d _ _ lengths λ j lt. elim (dec_lt j (n - k)) [
    | yes first ↦
        get_or-append_left (drop k datas) (take k datas) j d
          (omega (arith, length-drop k datas, w.sized))
        ∙ get_or-drop datas k j (k + j) d refl
        ∙ ap place (sym (mod_first n (length hist) j full first))
        ∙ last_push j (omega arith)
    | no second ↦
        get_or-append_right (drop k datas) (take k datas) j (j - (n - k)) d
          (omega (arith, length-drop k datas, w.sized, small))
        ∙ get_or-take datas k (j - (n - k)) d (omega (arith, small, below j lt))
        ∙ ap place (sym (mod_second n (length hist) j full (omega arith) (below j lt)))
        ∙ last_push j (below j lt)
  ]
    where
      k : ℕ
      k = length hist % n

      small : k < n
      small = mod-lt (length hist) pos

      place : ℕ → A
      place x = get_or datas x d

      below : (j : ℕ) → j < length (drop k datas ++ take k datas) → j < n
      below j lt = omega (
        arith,
        length-append (drop k datas) (take k datas),
        length-drop k datas,
        length-take k datas,
        w.sized,
        small,
      )

      last_push :
          (j : ℕ)
          → j < n
          → place ((length hist - n + j) % n) ≡ get_or (drop (length hist - n) hist) j d
      last_push j lt =
          w.held (length hist - n + j) (omega arith) (omega arith)
          ∙ sym (get_or-drop hist (length hist - n) j (length hist - n + j) d refl)

      lengths : length (drop k datas ++ take k datas) ≡ length (drop (length hist - n) hist)
      lengths = omega (
        arith,
        length-append (drop k datas) (take k datas),
        length-drop k datas,
        length-take k datas,
        length-drop (length hist - n) hist,
        w.sized,
        small,
      )

  -- Before the array is full its first places are the pushes.
  pub Window-part :
      (hist datas : List A)
      → Window d n hist datas
      → length hist < n
      → take (length hist) datas ≡ hist
  Window-part hist datas w part =
      get_or_ext d _ hist (omega (arith, length-take (length hist) datas, w.sized)) λ i lt.
        let in_range : i < length hist = omega (arith, length-take (length hist) datas) in
        get_or-take datas (length hist) i d in_range
        ∙ ap (λ (x : ℕ). get_or datas x d) (sym (mod-eq_of_lt {n = i} {m = n} (omega arith)))
        ∙ w.held i in_range (omega arith)
