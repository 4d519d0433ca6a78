-- ===== src/CircularStack/History.antt =====
-- What `get` returns after any sequence of pushes.
use native.Mathlib.Nat.{mod-lt, mod-eq_of_lt}
use model_lib.Common.{
  ℕ, zero, suc, ◌+◌, ◌-◌, ◌%◌, ◌^◌, ◌≤◌, ◌<◌, min, ◌≡◌, refl, sym, ◌∙◌, Bool, true, false, List, [],
  ◌∷◌, ◌++◌, foldl, append-nil, append_assoc, length, length-append, take, drop, ltb, leb, arith,
  dec_lt, lt→ltb, if◌then◌else◌,
}
use model_lib.CircularStack.{CircularStack, new_stack, push_back, copy_out, count_out, get}
use model_lib.CircularStack.Window.{Window, Window-nil, Window-push, Window-full, Window-part}

leb-true : (a b : ℕ) → a ≤ b → leb a b ≡ true
leb-true a b h = ground arith

leb-false : (a b : ℕ) → b < a → leb a b ≡ false
leb-false a b h = ground arith

module _ {ℓ} {A : Type ℓ} where
  abbrev pub push_all : ℕ → List A → CircularStack A → CircularStack A
  push_all n ts s = foldl (λ u t. push_back n t u) s ts

  -- The stack after the pushes `hist` since the last reset.
  pub record Holds (d : A) (n : ℕ) (hist : List A) (s : CircularStack A) : Type ℓ where
    pub window : Window d n hist s.datas
    pub counted : s.index ≡ length hist

module _ {ℓ} {A : Type ℓ} (d : A) (n : ℕ) (pos : 0 < n) where
  push_back-Holds :
      (hist : List A) (t : A) (s : CircularStack A)
      → length hist + 1 < 2 ^ 64
      → Holds d n hist s
      → Holds d n (hist ++ t ∷ []) (push_back n t s)
  unfolding push_back
  push_back-Holds hist t s room h = record {
    window = rw (h.counted) (Window-push d n pos hist s.datas t h.window);
    counted =
        rw (h.counted) (
          mod-eq_of_lt {n = length hist + 1} {m = 2 ^ 64} room ∙ sym (length-append hist (t ∷ [])));
  }

  pub push_all-Holds :
      (hist ts : List A) (s : CircularStack A)
      → length hist + length ts < 2 ^ 64
      → Holds d n hist s
      → Holds d n (hist ++ ts) (push_all n ts s)
  push_all-Holds hist [] s room h = rw (append-nil hist) h
  push_all-Holds hist (t ∷ ts) s room h = rw (append_assoc hist (t ∷ []) ts) at (
      push_all-Holds (hist ++ t ∷ []) ts (push_back n t s)
        (omega (arith, length-append hist (t ∷ []))) (push_back-Holds hist t s (omega arith) h))

  Holds-full :
      (hist : List A) (s : CircularStack A)
      → Holds d n hist s
      → n ≤ length hist
      → (copy_out n s).0 ≡ drop (length hist - n) hist
  unfolding copy_out
  Holds-full hist s h full =
      rw (h.counted, leb-true n (length hist) full)
        (pieces (length hist % n) ∙ Window-full d n pos hist s.datas h.window full)
    where
      -- The second piece is empty where the test skips it.
      pieces :
          (k : ℕ)
          → drop k s.datas ++ (if ltb 0 k then take k s.datas else [])
            ≡ drop k s.datas ++ take k s.datas
      pieces zero = refl
      pieces (suc k) = ground arith

  Holds-part :
      (hist : List A) (s : CircularStack A)
      → Holds d n hist s
      → length hist < n
      → (copy_out n s).0 ≡ hist
  unfolding copy_out
  Holds-part [] s h part = rw (h.counted) (ground arith)
  Holds-part (x ∷ hist) s h part =
      simp
        (
          h.counted,
          leb-false n (length (x ∷ hist)) part,
          lt→ltb 0 (length (x ∷ hist)) (omega arith),
        )
        (Window-part d n pos (x ∷ hist) s.datas h.window part)

  Holds-recent :
      (hist : List A) (s : CircularStack A)
      → Holds d n hist s
      → (copy_out n s).0 ≡ drop (length hist - n) hist
  Holds-recent hist s h = elim (dec_lt (length hist) n) [
    | yes part ↦
        let none_lost : length hist - n ≡ 0 = omega arith in rw none_lost (Holds-part hist s h part)
    | no full ↦ Holds-full hist s h (omega arith)
  ]

  count_held :
      (hist : List A) (s : CircularStack A) → Holds d n hist s → count_out n s ≡ min n (length hist)
  unfolding count_out
  count_held hist s h = ground (arith, h.counted)

  same_datas : (s : CircularStack A) → length (copy_out n s).1.datas ≡ length s.datas
  unfolding copy_out
  same_datas s = ground arith

  new_stack-Holds : (memory : List A) → length memory ≡ n → Holds d n [] (new_stack memory)
  unfolding new_stack
  new_stack-Holds memory sized = record { window = Window-nil d n pos memory sized; counted = refl }

  reached :
      (memory hist : List A)
      → length memory ≡ n
      → length hist < 2 ^ 64
      → Holds d n hist (push_all n hist (new_stack memory))
  reached memory hist sized room =
      push_all-Holds [] hist (new_stack memory) (omega arith) (new_stack-Holds memory sized)

  -- On a new stack, after fewer than 2 ^ 64 pushes and nothing else, `get` returns how many of the last `n` there are
  -- and copies them, oldest first; the elements pushed before are lost.
  pub get-recent :
      (memory hist : List A) (reset : Bool)
      → length memory ≡ n
      → length hist < 2 ^ 64
      → ((get n reset (push_all n hist (new_stack memory))).0 ≡ min n (length hist))
        × ((get n reset (push_all n hist (new_stack memory))).1 ≡ drop (length hist - n) hist)
  unfolding get count_out
  get-recent memory hist reset sized room = (count_held hist _ h, Holds-recent hist _ h)
    where
      h : Holds d n hist (push_all n hist (new_stack memory))
      h = reached memory hist sized room

  -- A `get` that resets leaves a stack that holds nothing: later pushes are returned as if they were the
  -- first.
  get-reset :
      (memory hist later : List A)
      → length memory ≡ n
      → length hist < 2 ^ 64
      → length later < 2 ^ 64
      → (get n true (push_all n later (get n true (push_all n hist (new_stack memory))).2)).1
        ≡ drop (length later - n) later
  unfolding get
  get-reset memory hist later sized room room' = Holds-recent later _ (
      push_all-Holds [] later _ (omega arith)
        (record { window = Window-nil d n pos _ (same_datas _ ∙ h.window.sized); counted = refl }))
    where
      h : Holds d n hist (push_all n hist (new_stack memory))
      h = reached memory hist sized room

  -- A `get` that does not reset forgets what it returned once the array has been filled: the index is cut
  -- down to its place in the array, so the next `get` returns fewer than `n` elements.
  get_unreset :
      (memory hist : List A)
      → length memory ≡ n
      → length hist < 2 ^ 64
      → n ≤ length hist
      → (get n false (get n false (push_all n hist (new_stack memory))).2).0 ≡ length hist % n
  unfolding get copy_out count_out
  get_unreset memory hist sized room full = twice (push_all n hist (new_stack memory)) h.counted
    where
      h : Holds d n hist (push_all n hist (new_stack memory))
      h = reached memory hist sized room

      twice :
          (s : CircularStack A)
          → s.index ≡ length hist
          → count_out n (copy_out n s).1 ≡ length hist % n
      twice s e = ground (arith, mod-lt (length hist) pos)
