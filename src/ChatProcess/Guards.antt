-- ===== src/ChatProcess/Guards.antt =====
-- What a player can bring about with a packet.
use model_lib.Common.{
  ℕ, zero, suc, ◌==◌, ==_ne, lt→ltb, ◌≡◌, ◌≢◌, ◌≤◌, ◌<◌, ◌⊎◌, inl, inr, refl, false, Option, none,
  some, ◌>>=◌, List, [], ◌∷◌, length, take, get_or, arith, Bool-cases,
}
use native.Mathlib.Decide.{ℕ_discrete}
use model_lib.ChatProcess.{
  World, Action, Packet, log_chat, process_ban_nick, process_kick_user, process_notify_global,
  process_chat, gm_text, byte_at, c_string, read, chat, chat_in,
}
use model_lib.ChatProcess.ChatLog.{write_log_chat}

-- A player that is no GM bans nobody, kicks nobody and notifies nobody, whatever the packet.
gm_only :
    (w : World) (usr : ℕ) (p : Packet)
    → w.is_gm usr ≡ false
    → (process_ban_nick w usr p ≡ some [])
      × (process_kick_user w usr p ≡ some [])
      × (process_notify_global w usr p ≡ some [])
unfolding process_ban_nick process_kick_user process_notify_global gm_text
gm_only w usr (none, size) h = (refl, refl, refl)
gm_only w usr (some bytes, size) h = (rw h refl, rw h refl, rw h refl)

-- The C string of bytes with a zero at place `n` is there.
c_string_there :
    (bytes : List ℕ) (n : ℕ)
    → n < length bytes
    → get_or bytes n 0 ≡ 0
    → (text : List ℕ) × (c_string bytes ≡ some text)
unfolding c_string
c_string_there [] n h z = elim h [ ]
c_string_there (c ∷ cs) zero h z = ([], ground (arith, z))
c_string_there (c ∷ cs) (suc n) h z =
    let (rest, e) = c_string_there cs n (omega arith) z in
    elim (Bool-cases (c == 0)) [
      | inl zero_byte ↦ ([], rw zero_byte refl)
      | inr more ↦ (c ∷ rest, rw (more, e) refl)
    ]

byte_at_there :
    (bytes : List ℕ) (i : ℕ) → i < length bytes → byte_at bytes i ≡ some (get_or bytes i 0)
unfolding byte_at
byte_at_there bytes i h = rw (lt→ltb i (length bytes) h) refl

read_there : (bytes : List ℕ) (n : ℕ) → n ≤ length bytes → read bytes n ≡ some (take n bytes)
unfolding read
read_there bytes n h = ground arith

-- What a chat message whose text is `content` brings about once the log has written its row.
abbrev pub logged : World → ℕ → List ℕ → List ℕ → Option (List Action)
logged w usr content text = do
  row ← write_log_chat w.alive w.remote (w.chat_user usr) (some content) 1
  some (log_chat row ∷ chat_in w (w.room_of usr) usr text)

chat_there :
    (w : World) (usr size : ℕ) (bytes content : List ℕ)
    → size ≤ length bytes
    → c_string bytes ≡ some content
    → chat w usr bytes size ≡ logged w usr content (take size bytes)
unfolding chat
chat_there w usr size bytes content h e = rw (e, read_there bytes size h) refl

-- A chat packet of at least two bytes that are all there and end in a zero is logged as its C string and, if the
-- log goes through and the player is in a room, sent to that room alone, behind the player's name. A
-- chat packet that does not end in a zero does nothing.
pub process_chat-delivers :
    (w : World) (usr n : ℕ) (bytes : List ℕ)
    → suc (suc n) ≤ length bytes
    → ((get_or bytes (suc n) 0 ≡ 0)
        × ((content : List ℕ) × (c_string bytes ≡ some content)
            × (process_chat w usr (some bytes, suc (suc n))
                ≡ logged w usr content (take (suc (suc n)) bytes))))
      ⊎ ((get_or bytes (suc n) 0 ≢ 0) × (process_chat w usr (some bytes, suc (suc n)) ≡ some []))
unfolding process_chat
process_chat-delivers w usr n bytes h = elim (ℕ_discrete (get_or bytes (suc n) 0) 0) [
  | no other ↦ inr (other, rw there (rw (==_ne (get_or bytes (suc n) 0) 0 other) refl))
  | yes z ↦
      let (content, e) = c_string_there bytes (suc n) (omega arith) z in
      let sent = chat_there w usr (suc (suc n)) bytes content h e in
      inl (z, (content, e, rw there (rw z sent)))
]
  where
    there : byte_at bytes (suc n) ≡ some (get_or bytes (suc n) 0)
    there = byte_at_there bytes (suc n) (omega arith)
