-- ===== src/NetworkProcess/Ownership.antt =====
-- Who gives the block of a packet back.
use model_lib.Common.{
  ℕ, ◌+◌, ◌≡◌, ◌≢◌, ◌⊎◌, inl, inr, refl, sym, ◌∙◌, Bool, true, false, Option, none, some, ◌>>=◌,
  List, [], ◌∷◌, ◌&&◌, ◌==◌, if◌then◌else◌, Bool-cases, arith,
}
use mathlib.Core.Path.{subst}
use mathlib.Core.Option.{some_inj}
use model_lib.User.{User, check_security}
use model_lib.Session.Wire.{Header}
use model_lib.NetworkProcess.{
  Types, Block, Action, database, guild, de_allocate, release, dispatch, checked, on_receive,
  Outcome, above, below, receive_packet, admitted,
}

-- How often the block of `n` bytes at address `p` is given back, and how often it is handed to a processor that
-- keeps it.
abbrev pub one_if : Bool → ℕ
one_if b = if b then 1 else 0

abbrev pub is_block : ℕ → ℕ → Block → Bool
is_block p n b = b.address == p && b.size == n

abbrev pub freed : ℕ → ℕ → List Action → ℕ
freed p n [] = 0
freed p n (de_allocate b ∷ rest) = one_if (is_block p n b) + freed p n rest
freed p n (_ ∷ rest) = freed p n rest

abbrev pub handed_over : ℕ → ℕ → List Action → ℕ
handed_over p n [] = 0
handed_over p n (database t b ∷ rest) = one_if (is_block p n b) + handed_over p n rest
handed_over p n (guild t b own ∷ rest) = one_if (is_block p n b) + handed_over p n rest
handed_over p n (_ ∷ rest) = handed_over p n rest

pub release_own : (b : Block) → release b true ≡ []
unfolding release
release_own b = ground arith

release_copy : (b : Block) → b.address ≢ 0 → release b false ≡ de_allocate b ∷ []
unfolding release
release_copy b h = ground arith

module _ (types : Types) where
  -- A packet type that no processor takes.
  abbrev pub Unclaimed : ℕ → Type 0
  Unclaimed t =
      ((above types.gs_unknown t && below types.gs_count t) ≡ false)
      × ((above types.db_unknown t && below types.db_count t) ≡ false)
      × ((above types.guild_unknown t && below types.guild_count t) ≡ false)

  dispatch-own : (h : Header) (b : Block) → (p n : ℕ) → freed p n (dispatch types h b true) ≡ 0
  unfolding dispatch
  dispatch-own h b p n = rw (release_own b) (ground arith)

  dispatch-copy :
      (h : Header) (b : Block)
      → b.address ≢ 0
      → ((p n : ℕ)
          → freed p n (dispatch types h b false) + handed_over p n (dispatch types h b false)
            ≡ one_if (is_block p n b))
        ⊎ (Unclaimed h.type × (dispatch types h b false ≡ []))
  unfolding dispatch
  dispatch-copy h b ne =
      rw (release_copy b ne)
        (elim (Bool-cases (above types.gs_unknown h.type && below types.gs_count h.type)) [
          | inl game ↦ inl (rw game (λ p n. omega arith))
          | inr g ↦
              elim (Bool-cases (above types.db_unknown h.type && below types.db_count h.type)) [
                | inl base ↦ inl (rw (g, base) (λ p n. omega arith))
                | inr d ↦
                    elim (Bool-cases
                      (above types.guild_unknown h.type && below types.guild_count h.type)) [
                        | inl own ↦ inl (rw (g, d, own) (λ p n. omega arith))
                        | inr k ↦ inr ((g, d, k), rw (g, d, k) refl)
                      ]
              ]
        ])

  -- A copied block is freed once, or handed once to a processor that keeps it, or its type is nobody's.
  abbrev Settled : Header → Block → Outcome → Type 0
  Settled h b (user, actions, answer) =
      ((p n : ℕ) → freed p n actions + handed_over p n actions ≡ one_if (is_block p n b))
      ⊎ (Unclaimed h.type × (actions ≡ []) × (answer ≡ true))

  checked-Settled :
      (result : User × Bool) (h : Header) (b : Block)
      → b.address ≢ 0
      → Settled h b (checked types result h b false)
  unfolding checked
  checked-Settled (u, true) h b ne = elim (dispatch-copy h b ne) [
    | inl one ↦ inl one
    | inr (free, e) ↦ inr (free, e, refl)
  ]
  checked-Settled (u, false) h b ne = inl (λ p n. rw (release_copy b ne) (omega arith))

  pub on_receive-cases :
      (found : Option (User × Bool)) (h : Header) (b : Block) (own : Bool) (o : Outcome)
      → (found >>= λ result. some (checked types result h b own)) ≡ some o
      → (result : User × Bool) × (o ≡ checked types result h b own)
  on_receive-cases none h b own o e = absurd (cc e)
  on_receive-cases (some result) h b own o e = (result, sym (some_inj.0 e))

  -- Whatever `OnReceive` answers for a player, a block that was copied for it, at an address other than null, is freed
  -- exactly once, or handed exactly once to the database or guild processor, and no other block is
  -- freed or handed to one of them; or its type is in none of the three ranges: then nobody gives
  -- it back, and yet the answer is true.
  pub on_receive-settles :
      (session : ℕ) (player : User) (h : Header) (b : Block) (user : Option User)
      (actions : List Action) (answer : Bool)
      → b.address ≢ 0
      → on_receive types session (some player) h b false ≡ some (user, actions, answer)
      → ((p n : ℕ) → freed p n actions + handed_over p n actions ≡ one_if (is_block p n b))
        ⊎ (Unclaimed h.type × (actions ≡ []) × (answer ≡ true))
  unfolding on_receive
  on_receive-settles session player h b user actions answer ne e =
      let (result, o) =
        on_receive-cases (check_security h.crc h.seq b.bytes b.size player) h b false _ e in
      subst (Settled h b) (sym o) (checked-Settled result h b ne)

  checked-own :
      (result : User × Bool) (h : Header) (b : Block) (p n : ℕ)
      → freed p n (checked types result h b true).1 ≡ 0
  unfolding checked
  checked-own (u, true) h b p n = dispatch-own h b p n
  checked-own (u, false) h b p n = rw (release_own b) refl

  own-keeps :
      (session : ℕ) (user : Option User) (h : Header) (b : Block) (o : Outcome)
      → on_receive types session user h b true ≡ some o
      → (p n : ℕ) → freed p n o.1 ≡ 0
  unfolding on_receive
  own-keeps session (some player) h b o e p n =
      let (result, q) =
        on_receive-cases (check_security h.crc h.seq b.bytes b.size player) h b true o e in
      subst (λ (o : Outcome). freed p n o.1 ≡ 0) (sym q) (checked-own result h b p n)
  own-keeps session none h b o e p n =
      subst (λ (o : Outcome). freed p n o.1 ≡ 0) (some_inj.0 e) (rw (release_own b) (ground arith))

  module _ (alive : ℕ → Bool) (can_receive : User → Bool) where
    -- The buffer of a session stays the session's: `ReceivePacket` never frees it. From a user that may not
    -- receive or whose session is another one, and from a stranger with anything but a login, it answers
    -- false and does nothing.
    receive_packet-keeps :
        (conn : ℕ) (user : Option User) (h : Header) (b : Block) (o : Outcome)
        → receive_packet types alive can_receive conn user h b ≡ some o
        → ((p n : ℕ) → freed p n o.1 ≡ 0)
          × (admitted types alive can_receive conn user h ≡ false → o ≡ (user, [], false))
    unfolding receive_packet
    receive_packet-keeps conn user h b o e =
        elim (Bool-cases (admitted types alive can_receive conn user h)) [
          | inl let_in ↦ (
            own-keeps conn user h b o (rw let_in at e),
            λ turned. absurd (cc (sym let_in ∙ turned)),
          )
          | inr out ↦
              (λ p n. rw (sym (some_inj.0 (rw out at e))) refl, λ _. sym (some_inj.0 (rw out at e)))
        ]
