-- ===== src/ChatProcess/Friends/Reading.antt =====
-- What a client that goes by the counts reads from the answer with the friends.
use model_lib.Common.{
  ℕ, zero, suc, ◌≡◌, refl, inl, inr, true, false, Option, none, some, ◌>>=◌, List, [], ◌∷◌, ◌++◌,
  length, append_assoc, append-nil, Bool-cases, ◌⊎◌,
}
use model_lib.Common.Int.{ℤ, pos, negsuc}
use model_lib.ChatProcess.Friends.{
  Field, number, text, Friend, RoleRecord, Services, flag, write_found, write_roles, write_friends,
  friends_buffer, is_window, request_zme_friends,
}

-- A role as the client sees it, and a friend with such roles.
pub record Role : Type 0 where
  pub id : ℤ
  pub found : RoleRecord
  pub online : ℤ

pub record Seen : Type 0 where
  pub display_name : List ℕ
  pub url : List ℕ
  pub roles : List Role

-- A reader gives a value and what is left.
abbrev pub Reader : Type 0 → Type 0
Reader A = List Field → Option (A × List Field)

abbrev pub give : {A : Type 0} → A → Reader A
give a fs = some (a, fs)

abbrev pub then_read : {A B : Type 0} → Reader A → (A → Reader B) → Reader B
then_read r f fs = r fs >>= λ p. f p.0 p.1

abbrev pub take_number : Reader ℤ
take_number [] = none
take_number (number n ∷ fs) = some (n, fs)
take_number (text t ∷ fs) = none

abbrev pub take_text : Reader (List ℕ)
take_text [] = none
take_text (number n ∷ fs) = none
take_text (text t ∷ fs) = some (t, fs)

-- A count is not negative.
abbrev pub take_count : Reader ℕ
take_count [] = none
take_count (number (pos n) ∷ fs) = some (n, fs)
take_count (number (negsuc n) ∷ fs) = none
take_count (text t ∷ fs) = none

abbrev pub read_role : Reader Role
read_role = then_read take_number (λ server. then_read take_number (λ id.
    then_read take_number (λ sex. then_read take_number (λ level. then_read take_number (λ online.
      then_read take_text (λ name. give (record {
        id = id;
        found = record { server_id = server; sex = sex; level = level; role_name = name };
        online = online;
      })))))))

abbrev pub repeated : {A : Type 0} → Reader A → ℕ → Reader (List A)
repeated r zero = give []
repeated r (suc n) = then_read r (λ a. then_read (repeated r n) (λ as'. give (a ∷ as')))

abbrev pub read_friend : Reader Seen
read_friend = then_read take_text (λ name. then_read take_text (λ url. then_read take_count (λ n.
    then_read (repeated read_role n)
      (λ rs. give (record { display_name = name; url = url; roles = rs })))))

-- An empty answer is no friends.
abbrev pub read_buffer : List Field → Option (List Seen × List Field)
read_buffer [] = some ([], [])
read_buffer (f ∷ fs) = then_read take_count (repeated read_friend) (f ∷ fs)

module _ (services : Services) where
  -- The service knows a record of each role, and the client should see these.
  pub data Known : List ℤ → List Role → Type 0 where
    none_left : Known [] []
    one_more :
        {ids : List ℤ} {rs : List Role} (id : ℤ) (r : RoleRecord)
        → services.find_record id ≡ some r
        → Known ids rs
        → Known
            (id ∷ ids)
            (record { id = id; found = r; online = flag (services.is_online id) } ∷ rs)

  pub data AllKnown : List Friend → List Seen → Type 0 where
    no_friends : AllKnown [] []
    friend :
        {fs : List Friend} {gs : List Seen} (f : Friend) (rs : List Role)
        → Known f.role_ids rs
        → AllKnown fs gs
        → AllKnown (f ∷ fs) (record { display_name = f.display_name; url = f.url; roles = rs } ∷ gs)

  read_roles-write :
      (ids : List ℤ) (rs : List Role) (rest : List Field)
      → Known ids rs
      → repeated read_role (length ids) (write_roles services ids ++ rest) ≡ some (rs, rest)
  unfolding write_roles write_found
  read_roles-write ids rs rest none_left = refl
  read_roles-write ids rs rest (one_more {ids = ids'} {rs = rs'} id r e k) =
      rw (e, read_roles-write ids' rs' rest k) refl

  read_friends-write :
      (fs : List Friend) (gs : List Seen) (rest : List Field)
      → AllKnown fs gs
      → repeated read_friend (length fs) (write_friends services fs ++ rest) ≡ some (gs, rest)
  unfolding write_friends
  read_friends-write fs gs rest no_friends = refl
  read_friends-write fs gs rest (friend {fs = fs'} {gs = gs'} f rs k more) =
      rw
        (
          append_assoc (write_roles services f.role_ids) (write_friends services fs') rest,
          read_roles-write f.role_ids rs (write_friends services fs' ++ rest) k,
          read_friends-write fs' gs' rest more,
        )
        refl

  read_all :
      (fs : List Friend) (gs : List Seen)
      → AllKnown fs gs
      → repeated read_friend (length fs) (write_friends services fs) ≡ some (gs, [])
  read_all fs gs known =
      rw (append-nil (write_friends services fs)) at (read_friends-write fs gs [] known)

  friends_buffer-reads :
      (fs : List Friend) (gs : List Seen)
      → AllKnown fs gs
      → read_buffer (friends_buffer services fs) ≡ some (gs, [])
  unfolding friends_buffer
  friends_buffer-reads fs gs no_friends = refl
  friends_buffer-reads fs gs (friend {fs = fs'} {gs = gs'} f rs k more) =
      read_all (f ∷ fs') _ (friend f rs k more)

  -- For a window and friends whose roles all have a record, a client that goes by the counts reads the friends and their
  -- roles, in order, and nothing is left. For any other window nothing is sent.
  pub request_zme_friends-reads :
      (player : ℕ) (from to : ℤ) (gs : List Seen)
      → AllKnown (services.friends player from to) gs
      → ((is_window from to ≡ true)
          × ((sent : List Field) × (request_zme_friends services player from to ≡ some sent)
              × (read_buffer sent ≡ some (gs, []))))
        ⊎ ((is_window from to ≡ false) × (request_zme_friends services player from to ≡ none))
  unfolding request_zme_friends
  request_zme_friends-reads player from to gs known = elim (Bool-cases (is_window from to)) [
    | inl window ↦ inl (
      window,
      (
        friends_buffer services (services.friends player from to),
        rw window refl,
        friends_buffer-reads (services.friends player from to) gs known,
      ),
    )
    | inr other ↦ inr (other, rw other refl)
  ]
