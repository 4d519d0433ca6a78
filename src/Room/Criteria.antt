-- ===== src/Room/Criteria.antt =====
-- What a room tells the match-making about itself.
use model_lib.Common.{
  ℕ, ◌+◌, ◌%◌, ◌^◌, ◌<◌, ◌≡◌, ◌≢◌, ◌⊎◌, inl, inr, refl, ap, ◌∙◌, Bool, true, Option, none, some,
  List, [], ◌∷◌, length, sum_by, List-cases, Bool-cases, leb, ltb, ◌||◌, arith, take, drop, map,
  keep,
}
use model_lib.Common.Int.{ℤ, pos_part}
use model_lib.Common.Page.{upper, guarded-window}
use model_lib.Room.{
  Room, MmCriteria, is_empty, add_points, get_mm_point, get_criteria, get_users,
  write_log_match_making, log_row, get_user_count, sign_extend,
}

-- The wrapping sum in the loop is the sum of the points, cut to 32 bits.
add_points-sum :
    (points : ℕ → ℕ) (total : ℕ) (ps : List ℕ)
    → total < 2 ^ 32
    → add_points points total ps ≡ (total + sum_by points ps) % 2 ^ 32
unfolding add_points
add_points-sum points total [] h = omega (arith, h)
add_points-sum points total (p ∷ ps) h =
    omega (arith, add_points-sum points ((total + points p) % 2 ^ 32) ps (omega arith))

module _ (points : ℕ → ℕ) where
  abbrev pub total : Room → ℕ
  total r = sum_by points r.users % 2 ^ 32

  -- What a room with users reports.
  abbrev pub reported : Room → MmCriteria
  reported r = record {
    server = r.server_id;
    mode = sign_extend r.game_mode;
    count = length r.users % 2 ^ 32;
    total = total r;
  }

  occupied :
      (p : ℕ) (ps : List ℕ) (r : Room)
      → r.users ≡ p ∷ ps
      → (get_criteria points r ≡ some (reported r)) × (get_mm_point points r ≡ total r)
  unfolding get_criteria get_mm_point is_empty
  occupied p ps r e = rw e (
    λ i. some (record {
      server = r.server_id;
      mode = sign_extend r.game_mode;
      count = length (p ∷ ps) % 2 ^ 32;
      total = summed i;
    }),
    summed,
  )
    where
      summed : add_points points 0 (p ∷ ps) ≡ sum_by points (p ∷ ps) % 2 ^ 32
      summed = omega (arith, add_points-sum points 0 (p ∷ ps) (omega arith))

  -- A room without users has no criteria and no points. Of any other the criteria give the server, the
  -- mode, the number of users and the sum of their points modulo 2^32, which is what `GetMMPoint` returns.
  pub get_criteria-totals :
      (r : Room)
      → ((r.users ≡ []) × (get_criteria points r ≡ none) × (get_mm_point points r ≡ 0))
        ⊎ ((r.users ≢ [])
            × (get_criteria points r ≡ some (reported r))
            × (get_mm_point points r ≡ total r))
  unfolding get_criteria get_mm_point is_empty
  get_criteria-totals r = elim (List-cases r.users) [
    | inl e ↦ inl (rw e (refl, refl, refl))
    | inr (p, ps, e) ↦ inr (λ q. cc (q, e), (occupied p ps r e).0, (occupied p ps r e).1)
  ]

keep_all : (ps : List ℕ) → map (λ (p : ℕ). p) (keep (λ (p : ℕ). true) ps) ≡ ps
keep_all [] = refl
keep_all (p ∷ ps) = ap (◌∷◌ p) (keep_all ps)

-- `GetUsers` returns the users from number `from` to below `to`, in the order in which they came; a negative
-- `to` stands for the end and a negative `from` for the start.
get_users-window :
    (from to : ℤ) (r : Room)
    → get_users from to r ≡ drop (pos_part from) (take (upper to (length r.users)) r.users)
unfolding get_users
get_users-window from to r =
    guarded-window (λ (p : ℕ). true) (λ (p : ℕ). p) r.users from (upper to (length r.users))
    ∙ ap (λ (ps : List ℕ). drop (pos_part from) (take (upper to (length r.users)) ps))
        (keep_all r.users)

abbrev out_of_range : ℕ → Bool
out_of_range n = leb n 0 || ltb 5 n

-- A row is written exactly for rooms of 1 to 5 users, and its match type is one of the 5 names. (A list never
-- reaches 2^32 users.)
write_log-in_bounds :
    (points : ℕ → ℕ) (now result : ℕ) (r : Room) (room2 : Option Room)
    → length r.users < 2 ^ 32
    → let row = log_row points now r room2 result in
      ((write_log_match_making points now (some r) room2 result ≡ some row)
        × (row.match_type + 1 ≡ length r.users)
        × (row.match_type < 5))
      ⊎ ((write_log_match_making points now (some r) room2 result ≡ none)
          × ((length r.users ≡ 0) ⊎ (5 < length r.users)))
unfolding write_log_match_making get_user_count log_row
write_log-in_bounds points now result r room2 h =
    elim (Bool-cases (out_of_range (length r.users % 2 ^ 32))) [
      | inl out ↦ inr (rw out refl, ground (arith, out, h))
      | inr fits ↦ inl (rw fits refl, ground (arith, fits, h), ground (arith, fits, h))
    ]
