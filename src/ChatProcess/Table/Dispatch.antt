-- ===== src/ChatProcess/Table/Dispatch.antt =====
-- Which handler a packet of a player reaches, from the session on.
use model_lib.Common.{
  ℕ, ◌≤◌, ◌<◌, ◌≡◌, ◌≢◌, refl, sym, inl, inr, Bool, true, false, not, Option, none, some, List, [],
  ◌∷◌, length, get_or, set, length-set, get_or-set_self, get_or-set_ne, All, arith, ℕ_discrete, ltb,
  ◌==◌, ◌&&◌, Bool-cases,
}
use model_lib.Common.Int.{pos}
use model_lib.User.{User, check_security}
use model_lib.Session.Wire.{Header}
use model_lib.NetworkProcess.{
  Types, Block, Action, game, database, guild, login, de_allocate, above, below, is, release,
  dispatch, checked, on_receive, Outcome,
}
use model_lib.NetworkProcess.Ownership.{on_receive-cases}
use mathlib.Core.Option.{some_inj}
use model_lib.ChatProcess.Table.{
  Handler, join_room, chat, ban_nick, notify_global, enter_queue, leave_queue, kick_user,
  zme_friends, code_zme, zc_billing_url, handlers, Table, assign, new_table, process_packet,
}

-- The numbers of the packet types of the handlers: different, and below c2s_gs_count.
pub record IsNumbering (type_of : Handler → ℕ) (count : ℕ) : Type 0 where
  pub different : (g h : Handler) → type_of g ≡ type_of h → g ≡ h
  pub within : (h : Handler) → type_of h < count

abbrev pick : (P : Handler → Type 0) → All P handlers → (h : Handler) → P h
pick P a join_room = a.0
pick P a chat = a.1.0
pick P a ban_nick = a.1.1.0
pick P a notify_global = a.1.1.1.0
pick P a enter_queue = a.1.1.1.1.0
pick P a leave_queue = a.1.1.1.1.1.0
pick P a kick_user = a.1.1.1.1.1.1.0
pick P a zme_friends = a.1.1.1.1.1.1.1.0
pick P a code_zme = a.1.1.1.1.1.1.1.1.0
pick P a zc_billing_url = a.1.1.1.1.1.1.1.1.1.0

module _ (type_of : Handler → ℕ) (count : ℕ) (n : IsNumbering type_of count) where
  length-assign : (hs : List Handler) (t : Table) → length (assign type_of hs t) ≡ length t
  unfolding assign
  length-assign [] t = refl
  length-assign (h ∷ hs) t =
      omega
        (arith, length-assign hs (set t (type_of h) (some h)), length-set t (type_of h) (some h))

  assign-keeps :
      (hs : List Handler) (t : Table) (h : Handler)
      → length t ≡ count
      → get_or t (type_of h) none ≡ some h
      → get_or (assign type_of hs t) (type_of h) none ≡ some h
  unfolding assign
  assign-keeps [] t h sized e = e
  assign-keeps (g ∷ hs) t h sized e =
      assign-keeps hs (set t (type_of g) (some g)) h
        (omega (arith, length-set t (type_of g) (some g)))
        (elim (ℕ_discrete (type_of g) (type_of h)) [
          | yes same ↦
              rw (n.different g h same)
                (get_or-set_self t (type_of h) (some h) none (omega (arith, n.within h)))
          | no ne ↦ rw (get_or-set_ne t (type_of g) (type_of h) (some g) none ne) e
        ])

  assign-All :
      (hs : List Handler) (t : Table)
      → length t ≡ count
      → All (λ h. get_or (assign type_of hs t) (type_of h) none ≡ some h) hs
  unfolding assign
  assign-All [] t sized = tt
  assign-All (h ∷ hs) t sized =
      let sized' : length (set t (type_of h) (some h)) ≡ count =
        omega (arith, length-set t (type_of h) (some h)) in
      (
        assign-keeps hs (set t (type_of h) (some h)) h sized'
            (get_or-set_self t (type_of h) (some h) none (omega (arith, n.within h))),
        assign-All hs (set t (type_of h) (some h)) sized',
      )

  assign-other :
      (hs : List Handler) (t : Table) (p : ℕ)
      → ((h : Handler) → type_of h ≢ p)
      → get_or (assign type_of hs t) p none ≡ get_or t p none
  unfolding assign
  assign-other [] t p other = refl
  assign-other (h ∷ hs) t p other =
      rw (assign-other hs (set t (type_of h) (some h)) p other)
        (get_or-set_ne t (type_of h) p (some h) none (other h))

  -- Over a table that was zero before: the type of each handler calls that handler, every other type below
  -- c2s_gs_count calls none, and a type from there on is read past the table.
  process_packet-cases :
      (memory : Table) (p : ℕ)
      → length memory ≡ count
      → ((q : ℕ) → get_or memory q none ≡ none)
      → let t = new_table type_of memory in
        ((h : Handler) → process_packet t (type_of h) ≡ some (some h))
        × (p < count → ((h : Handler) → type_of h ≢ p) → process_packet t p ≡ some none)
        × (count ≤ p → process_packet t p ≡ none)
  unfolding new_table process_packet
  process_packet-cases memory p sized zeroed = (
    λ h. rw (inside (type_of h) (n.within h), at_handler h) refl,
    λ low other. rw (inside p low, assign-other handlers memory p other, zeroed p) refl,
    λ high. ground (arith, size, high),
  )
    where
      size : length (assign type_of handlers memory) ≡ count
      size = omega (arith, length-assign handlers memory)

      inside : (q : ℕ) → q < count → ltb q (length (assign type_of handlers memory)) ≡ true
      inside q low = ground (arith, size)

      at_handler : (h : Handler) → get_or (assign type_of handlers memory) (type_of h) none ≡ some h
      at_handler = pick _ (assign-All handlers memory sized)

-- A packet that is handed to the handlers is looked up inside the table; the other actions are not theirs.
abbrev pub InTable : Table → Action → Type 0
InTable t (game h b) = (found : Option Handler) × (process_packet t h.type ≡ some found)
InTable t (database type b) = Unit
InTable t (guild type b own) = Unit
InTable t (login session b) = Unit
InTable t (de_allocate b) = Unit

game-InTable :
    (t : Table) (count : ℕ) (h : Header) (b : Block)
    → length t ≡ count
    → below (pos count) h.type ≡ true
    → InTable t (game h b)
unfolding process_packet
game-InTable t count h b sized low = (get_or t h.type none, ground (arith, sized, low))

All-release : (t : Table) (b : Block) (own_mem : Bool) → All (InTable t) (release b own_mem)
unfolding release
All-release t b own_mem = elim (Bool-cases (not (b.address == 0) && not own_mem)) [
  | inl free ↦ rw free (tt, tt)
  | inr kept ↦ rw kept tt
]

dispatch-InTable :
    (types : Types) (t : Table) (h : Header) (b : Block) (own_mem : Bool)
    → types.gs_count ≡ pos (length t)
    → All (InTable t) (dispatch types h b own_mem)
unfolding dispatch
dispatch-InTable types t h b own_mem sized =
    elim (Bool-cases (above types.gs_unknown h.type && below types.gs_count h.type)) [
      | inl here ↦
          let low : below (pos (length t)) h.type ≡ true = ground (arith, here, sized) in
          rw here (game-InTable t (length t) h b refl low, All-release t b own_mem)
      | inr other ↦
          rw other
            (elim (Bool-cases (above types.db_unknown h.type && below types.db_count h.type)) [
              | inl db ↦ rw db (tt, tt)
              | inr not_db ↦
                  rw not_db
                    (elim (Bool-cases
                      (above types.guild_unknown h.type && below types.guild_count h.type)) [
                        | inl g ↦ rw g (tt, tt)
                        | inr nobody ↦ rw nobody tt
                      ])
            ])
    ]

checked-InTable :
    (types : Types) (t : Table) (result : User × Bool) (h : Header) (b : Block) (own_mem : Bool)
    → types.gs_count ≡ pos (length t)
    → All (InTable t) (checked types result h b own_mem).1
unfolding checked
checked-InTable types t (u, true) h b own_mem sized = dispatch-InTable types t h b own_mem sized
checked-InTable types t (u, false) h b own_mem sized = All-release t b own_mem

-- Whatever a session hands to `OnReceive`, its packet type is looked up inside the table of handlers, which has
-- c2s_gs_count entries.
pub on_receive-InTable :
    (types : Types) (t : Table) (session : ℕ) (user : Option User) (h : Header) (b : Block)
    (own_mem : Bool) (o : Outcome)
    → types.gs_count ≡ pos (length t)
    → on_receive types session user h b own_mem ≡ some o
    → All (InTable t) o.1
unfolding on_receive
on_receive-InTable types t session none h b own_mem o sized e =
    rw (sym (some_inj.0 e)) (elim (Bool-cases (is types.db_login h.type)) [
      | inl logs_in ↦ rw logs_in (tt, All-release t b own_mem)
      | inr other ↦ rw other tt
    ])
on_receive-InTable types t session (some player) h b own_mem o sized e =
    let (result, same) =
      on_receive-cases types (check_security h.crc h.seq b.bytes b.size player) h b own_mem o e in
    rw same (checked-InTable types t result h b own_mem sized)
