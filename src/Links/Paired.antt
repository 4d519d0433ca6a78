-- ===== src/Links/Paired.antt =====
-- Users and sessions hold each other, over logins and ends of sessions.
use model_lib.Common.{
  ℕ, ◌≡◌, ◌≢◌, refl, sym, ap, ◌∙◌, ◌⊎◌, inl, inr, Bool, true, false, Option, none, some, ==_refl,
  ==_ne, ℕ_discrete, arith,
}
use mathlib.Core.Option.{some_inj}
use model_lib.User.{set_session_external, set_state}
use model_lib.ChatUser.{ChatUser, close_session}
use model_lib.Links.{
  Links, update, set_user, told, log_in, lock, close_locked, reset, close_socket, end_session,
}

-- The session of a user has that user, and the user of a session has that session or none.
pub record IsPaired (l : Links) : Type 0 where
  pub forth : (u s : ℕ) → (l.users u).base.session ≡ some s → l.user_of s ≡ some u
  pub back :
      (u s : ℕ)
      → l.user_of s ≡ some u
      → ((l.users u).base.session ≡ none) ⊎ ((l.users u).base.session ≡ some s)

module _ {ℓ} {A : Type ℓ} where
  update_same : (f : ℕ → A) (p : ℕ) (v : A) → update f p v p ≡ v
  update_same f p v = rw (==_refl p) refl

  update_other : (f : ℕ → A) (p q : ℕ) (v : A) → q ≢ p → update f p v q ≡ f q
  update_other f p q v ne = rw (==_ne p q (λ e. ne (sym e))) refl

-- A session that has no user, and a user that no session has, find each other.
pub log_in-IsPaired :
    (u s : ℕ) (l : Links)
    → l.user_of s ≡ none
    → ((t : ℕ) → l.user_of t ≢ some u)
    → IsPaired l
    → IsPaired (log_in u s l)
unfolding log_in told set_user set_session_external
log_in-IsPaired u s l free new v = record {
  forth = λ w t e. elim (ℕ_discrete w u) [
    | yes same ↦
        let here : t ≡ s = ground (arith, e, same) in
        rw (here, same) (update_same l.user_of s (some u))
    | no ne ↦
        let kept : (l.users w).base.session ≡ some t = ground (arith, e, ne) in
        let was = v.forth w t kept in
        rw (update_other l.user_of s t (some u) (λ at_s. cc (rw at_s at was, free))) was
  ];
  back = λ w t e. elim (ℕ_discrete t s) [
    | yes same ↦ let here : w ≡ u = ground (arith, e, same) in inr (rw (here, same) (ground arith))
    | no ne ↦
        let was : l.user_of t ≡ some w = rw (update_other l.user_of s t (some u) ne) at e in
        let other : w ≢ u = λ at_u. new t (rw at_u at was) in
        rw (update_other l.users u w _ other) (v.back w t was)
  ];
}

pub record Ended (s : ℕ) (before after : Links) : Type 0 where
  pub no_user : after.user_of s ≡ none
  pub shut : after.is_open s ≡ false
  pub closed :
      (u : ℕ) → (before.users u).base.session ≡ some s → (after.users u).base.session ≡ none
  pub left : (u : ℕ) → (after.users u).base.session ≢ some s
  pub closed_as :
      (u : ℕ) → before.user_of s ≡ some u → after.users u ≡ close_session (before.users u)
  pub kept_as : (u : ℕ) → before.user_of s ≢ some u → after.users u ≡ before.users u
  pub others :
      (u : ℕ)
      → (before.users u).base.session ≢ some s
      → (after.users u).base.session ≡ (before.users u).base.session
  pub other_sessions :
      (t : ℕ) → t ≢ s → (after.user_of t ≡ before.user_of t) × (after.is_open t ≡ before.is_open t)

-- What `reset` leaves where the session's user exists.
module _ (alive : ℕ → Bool) where
  reset_found :
      (s u : ℕ) (l : Links)
      → l.user_of s ≡ some u
      → alive u ≡ true
      → reset alive s l ≡ record l { users = update l.users u (close_session (l.users u)) }
  unfolding reset lock close_locked
  reset_found s u l e lives = rw (e, lives) refl

  reset_idle : (s : ℕ) (l : Links) → l.user_of s ≡ none → reset alive s l ≡ l
  unfolding reset lock close_locked
  reset_idle s l e = rw e refl

  closed_session : (x : ChatUser) → (close_session x).base.session ≡ none
  unfolding close_session set_state
  closed_session x = refl

  pub end_found :
      (s u : ℕ) (l : Links)
      → l.user_of s ≡ some u
      → alive u ≡ true
      → IsPaired l
      → Ended s l (end_session alive s l)
  unfolding end_session close_socket
  end_found s u l e lives v = rw (reset_found s u l e lives) (record {
    no_user = update_same l.user_of s none;
    shut = update_same l.is_open s false;
    closed = λ w has.
        let here : w ≡ u = some_inj.0 (sym (v.forth w s has) ∙ e) in
        rw here (ap (λ (x : ChatUser). x.base.session) (gone u refl) ∙ closed_session (l.users u));
    left = λ w has. elim (ℕ_discrete w u) [
      | yes same ↦
          let none_there = ap (λ (x : ChatUser). x.base.session) (gone w same) in
          cc (has, none_there, closed_session (l.users u))
      | no ne ↦
          let kept = rw (update_other l.users u w (close_session (l.users u)) ne) at has in
          absurd (ne (some_inj.0 (sym (v.forth w s kept) ∙ e)))
    ];
    closed_as = λ w at_s. let here : w ≡ u = some_inj.0 (sym at_s ∙ e) in rw here (gone u refl);
    kept_as = λ w not_at_s.
        update_other l.users u w (close_session (l.users u)) (λ same. not_at_s (rw same e));
    others = λ w hasnt. elim (ℕ_discrete w u) [
      | yes same ↦ rw same (
          ap (λ (x : ChatUser). x.base.session) (gone u refl)
          ∙ closed_session (l.users u)
          ∙ sym (without w same hasnt))
      | no ne ↦
          ap (λ (x : ChatUser). x.base.session)
            (update_other l.users u w (close_session (l.users u)) ne)
    ];
    other_sessions =
        λ t ne. (update_other l.user_of s t none ne, update_other l.is_open s t false ne);
  })
    where
      gone :
          (w : ℕ)
          → w ≡ u
          → update l.users u (close_session (l.users u)) w ≡ close_session (l.users u)
      gone w same = rw same (update_same l.users u (close_session (l.users u)))

      without :
          (w : ℕ) → w ≡ u → (l.users w).base.session ≢ some s → (l.users u).base.session ≡ none
      without w same hasnt = elim (v.back u s e) [
        | inl none_there ↦ none_there
        | inr there ↦ absurd (hasnt (rw same there))
      ]

  pub end_idle :
      (s : ℕ) (l : Links) → l.user_of s ≡ none → IsPaired l → Ended s l (end_session alive s l)
  unfolding end_session close_socket
  end_idle s l e v = rw (reset_idle s l e) (record {
    no_user = update_same l.user_of s none;
    shut = update_same l.is_open s false;
    closed = λ w has. cc (v.forth w s has, e);
    left = λ w has. cc (v.forth w s has, e);
    closed_as = λ w at_s. cc (at_s, e);
    kept_as = λ w not_at_s. refl;
    others = λ w hasnt. refl;
    other_sessions =
        λ t ne. (update_other l.user_of s t none ne, update_other l.is_open s t false ne);
  })

has_or_not : (o : Option ℕ) (s : ℕ) → (o ≡ some s) ⊎ (o ≢ some s)
has_or_not none s = inr (λ e. cc e)
has_or_not (some t) s = elim (ℕ_discrete t s) [
  | yes same ↦ inl (ap some same)
  | no ne ↦ inr (λ e. ne (some_inj.0 e))
]

-- What is left is paired where what was is.
pub Ended-IsPaired : (s : ℕ) (l l' : Links) → IsPaired l → Ended s l l' → IsPaired l'
Ended-IsPaired s l l' v h = record {
  forth = λ w t e. elim (has_or_not (l.users w).base.session s) [
    | inl had ↦ absurd (cc (h.closed w had, e))
    | inr hadnt ↦
        let kept : (l.users w).base.session ≡ some t = rw (h.others w hadnt) at e in
        let ne : t ≢ s = λ at_s. hadnt (rw at_s at kept) in
        rw (h.other_sessions t ne).0 (v.forth w t kept)
  ];
  back = λ w t e. elim (ℕ_discrete t s) [
    | yes same ↦ absurd (cc (rw same at e, h.no_user))
    | no ne ↦ elim (has_or_not (l.users w).base.session s) [
      | inl had ↦ inl (h.closed w had)
      | inr hadnt ↦ rw (h.others w hadnt) (v.back w t (rw (h.other_sessions t ne).0 at e))
    ]
  ];
}
