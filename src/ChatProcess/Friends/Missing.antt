-- ===== src/ChatProcess/Friends/Missing.antt =====
-- The answer with the friends where a role has no record.
use model_lib.Common.{
  ℕ, zero, suc, ◌+◌, ◌*◌, ◌≤◌, ◌<◌, ◌≡◌, refl, inl, inr, none, some, List, [], ◌∷◌, ◌++◌, length,
  length-append, arith, Option-cases,
}
use model_lib.Common.Int.{ℤ}
use model_lib.ChatProcess.Friends.{
  Field, number, text, Friend, Services, write_found, write_roles, write_friends, friends_buffer,
}
use model_lib.ChatProcess.Friends.Reading.{
  Reader, give, then_read, take_number, take_text, read_role, repeated, read_buffer,
}

-- A reader that takes a fixed number of fields.
abbrev Takes : {A : Type 0} → ℕ → Reader A → Type 0
Takes {A} n r = (fs rest : List Field) (a : A) → r fs ≡ some (a, rest) → length fs ≡ n + length rest

give-Takes : {A : Type 0} (a : A) → Takes 0 (give a)
give-Takes a fs rest b e = let same : fs ≡ rest = cc e in rw same (omega arith)

take_number-Takes : Takes 1 take_number
take_number-Takes [] rest a e = absurd (ground (arith, e))
take_number-Takes (number n ∷ fs) rest a e = let same : fs ≡ rest = cc e in rw same (omega arith)
take_number-Takes (text t ∷ fs) rest a e = absurd (ground (arith, e))

take_text-Takes : Takes 1 take_text
take_text-Takes [] rest a e = absurd (ground (arith, e))
take_text-Takes (number n ∷ fs) rest a e = absurd (ground (arith, e))
take_text-Takes (text t ∷ fs) rest a e = let same : fs ≡ rest = cc e in rw same (omega arith)

then_read-Takes :
    {A B : Type 0} (m n : ℕ) (r : Reader A) (f : A → Reader B)
    → Takes m r
    → ((a : A) → Takes n (f a))
    → Takes (m + n) (then_read r f)
then_read-Takes m n r f hr hf fs rest b e = elim (Option-cases (r fs)) [
  | inl none_read ↦ absurd (ground (arith, none_read, e))
  | inr ((a, mid), first) ↦
      let second : f a mid ≡ some (b, rest) = rw first at e in
      omega (arith, hr fs mid a first, hf a mid rest b second)
]

read_role-Takes : Takes 6 read_role
read_role-Takes = then_read-Takes 1 5 _ _ take_number-Takes (λ server.
    then_read-Takes 1 4 _ _ take_number-Takes (λ id.
      then_read-Takes 1 3 _ _ take_number-Takes (λ sex.
        then_read-Takes 1 2 _ _ take_number-Takes (λ level.
          then_read-Takes 1 1 _ _ take_number-Takes
            (λ online. then_read-Takes 1 0 _ _ take_text-Takes (λ name. give-Takes _))))))

repeated-Takes : (n k : ℕ) → k ≡ 6 * n → Takes k (repeated read_role n)
repeated-Takes zero k e = let z : k ≡ 0 = omega arith in rw z (give-Takes [])
repeated-Takes (suc n) k e =
    let split : k ≡ 6 + (6 * n + 0) = omega arith in
    rw split (
      then_read-Takes 6 (6 * n + 0) read_role _ read_role-Takes
        (λ a. then_read-Takes (6 * n) 0 _ _ (repeated-Takes n (6 * n) refl) (λ as'. give-Takes _)))

module _ (services : Services) where
  write_found-le : (id : ℤ) → length (write_found services id (services.find_record id)) ≤ 6
  unfolding write_found
  write_found-le id = elim (Option-cases (services.find_record id)) [
    | inl e ↦ rw e (omega arith)
    | inr (r, e) ↦ rw e (omega arith)
  ]

  write_roles-le : (ids : List ℤ) → length (write_roles services ids) ≤ 6 * length ids
  unfolding write_roles
  write_roles-le [] = omega arith
  write_roles-le (id ∷ ids) = omega (
    arith,
    write_found-le id,
    write_roles-le ids,
    length-append (write_found services id (services.find_record id)) (write_roles services ids),
  )

  -- A role without a record is among them.
  pub data Unrecorded : List ℤ → Type 0 where
    this : (id : ℤ) (ids : List ℤ) → services.find_record id ≡ none → Unrecorded (id ∷ ids)
    later : (id : ℤ) (ids : List ℤ) → Unrecorded ids → Unrecorded (id ∷ ids)

  write_roles-short :
      (ids : List ℤ) → Unrecorded ids → length (write_roles services ids) < 6 * length ids
  unfolding write_roles write_found
  write_roles-short all (this id ids e) = rw e (omega (arith, write_roles-le ids))
  write_roles-short all (later id ids m) = omega (
    arith,
    write_found-le id,
    write_roles-short ids m,
    length-append (write_found services id (services.find_record id)) (write_roles services ids),
  )

  -- The count in front of the roles of a friend takes in those without a record, of which nothing is written: where
  -- there is one, a client that goes by the count does not get through the answer.
  pub missing_role_unreadable :
      (f : Friend) → Unrecorded f.role_ids → read_buffer (friends_buffer services (f ∷ [])) ≡ none
  unfolding friends_buffer write_friends
  missing_role_unreadable f m =
      elim (Option-cases
        (repeated read_role (length f.role_ids) (write_roles services f.role_ids ++ []))) [
          | inl short ↦ rw short refl
          | inr ((rs, rest), e) ↦
              let taken = repeated-Takes (length f.role_ids) _ refl _ rest rs e in
              absurd (
                omega (
                  arith,
                  taken,
                  write_roles-short f.role_ids m,
                  length-append (write_roles services f.role_ids) [],
                ))
        ]
