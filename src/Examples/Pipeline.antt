-- ===== src/Examples/Pipeline.antt =====
-- From the bytes of a connection to the handlers, at a concrete stream.
use model_lib.Common.{
  ℕ, ◌+◌, ◌%◌, ◌^◌, ◌<◌, ◌≡◌, refl, inl, ◌⊎◌, true, false, some, List, [], ◌∷◌, arith, replicate,
  map, take, length,
}
use model_lib.Common.Int.{pos, negsuc}
use model_lib.User.{User, new_user, init_secret_key, set_session, set_session_internal, get_session}
use model_lib.User.Security.{init_secret_key-HasKey}
use model_lib.Session.{Session, Reading}
use model_lib.SimpleBuffer.{Buffer, new_joined}
use model_lib.Session.Wire.{encode_header}
use model_lib.Session.Framing.{
  Packet, AllSendable, Sendable, Delivers, encode_packet, encode_all, pump,
}
use model_lib.Session.Queue.{do_write, handle_write, send_buffer}
use model_lib.Session.Drain.{drain}
use model_lib.Session.Fifo.{System, Step, Reach}
use model_lib.ChatUser.{ChatUser, send_packet}
use model_lib.NetworkProcess.{Types}
use model_lib.Pipeline.{serve_all}
use model_lib.Pipeline.Answers.{Posts, written_all, answers-read, answers-all}
use model_lib.Pipeline.Delivery.{IsSealed, handed, stream-reaches_handlers}

abbrev types : Types
types = record {
  gs_unknown = negsuc 0;
  gs_count = pos 20;
  db_unknown = pos 100;
  db_count = pos 120;
  guild_unknown = pos 200;
  guild_count = pos 220;
  db_login = pos 101;
}

-- A user with key 7, on session 4.
abbrev blank : User
blank = set_session (some 4) (new_user 0 (replicate 256 0))

abbrev player : User
player = init_secret_key 7 blank

-- Packet `n` of the player, with no body.
abbrev numbered : ℕ → Packet
numbered n = record { head = record { len = 0; crc = 0; seq = n; type = 5 }; payload = [] }

abbrev packets : List Packet
packets = numbered 0 ∷ numbered 1 ∷ []

abbrev waiting : Session
waiting = record {
  data_ = replicate 1024 0;
  header_ = (numbered 0).head;
  user = some 5;
  reading = Reading.header;
}

numbered-Sendable : (n : ℕ) → n < 2 ^ 32 → Sendable (numbered n)
numbered-Sendable n h = record { in_range = omega arith; sized = refl; small = omega arith }

numbered-IsSealed : (n key : ℕ) → IsSealed types key n (numbered n)
numbered-IsSealed n key = record {
  numbered = refl;
  authentic = inl refl;
  bytes = tt;
  for_game = refl;
}

stream-reaches_handlers_example :
    serve_all types
      (λ s. true)
      (λ u. true)
      9
      4
      (some player)
      (pump (λ u. true) true 4 waiting (encode_all packets)).1
    ≡ some (some (record player { seq = (player.seq + 2) % 2 ^ 32 }), map (handed 9) packets)
unfolding init_secret_key new_user set_session set_session_internal get_session
stream-reaches_handlers_example =
    stream-reaches_handlers types (λ s. true) (λ u. true) 9 4 (λ u. true) player 5 packets waiting
      (init_secret_key-HasKey 7 blank refl).0 (record { receives = λ n. refl; session = refl })
      (numbered-Sendable 0 (omega arith), (numbered-Sendable 1 (omega arith), tt))
      (numbered-IsSealed 0 7, (numbered-IsSealed 1 7, tt)) refl refl

-- `SendPacket` of a packet with a body of two bytes, and of one with none; the first write has succeeded.
abbrev sender : ChatUser
sender = record { base = blank; server_id = 3; player_id = 7; user_name = [] }

abbrev hello : Packet
hello = record { head = record { len = 2; crc = 0; seq = 0; type = 5 }; payload = 104 ∷ 105 ∷ [] }

abbrev answers : List Packet
answers = hello ∷ numbered 1 ∷ []

abbrev block : Packet → Buffer
block p = record { data_ = some (encode_packet p); len = length (encode_packet p) }

abbrev after_one : System
after_one = record {
  writer = record { datas = block (numbered 1) ∷ []; outstanding = true };
  posted = block hello ∷ block (numbered 1) ∷ [];
  begun = block hello ∷ block (numbered 1) ∷ [];
  sent = block hello ∷ [];
  broken = false;
}

after_one-Reach : Reach after_one
unfolding do_write handle_write
after_one-Reach =
    Reach.next
      (Reach.next (Reach.next Reach.first (Step.post (block hello)))
        (Step.post (block (numbered 1))))
      (Step.succeed refl refl)

answers-Posts : Posts (λ s. true) sender 4 answers after_one.posted
unfolding send_packet get_session new_user set_session set_session_internal new_joined encode_header
    send_buffer
answers-Posts = (([], refl), (([], refl), tt))

answers-AllSendable : AllSendable answers
answers-AllSendable = (
  record {
    in_range = record {
      len_fits = omega arith;
      crc_fits = omega arith;
      seq_fits = omega arith;
      type_fits = omega arith;
    };
    sized = refl;
    small = omega arith;
  },
  (numbered-Sendable 1 (omega arith), tt),
)

answers-read_example :
    Delivers
      (λ u. true)
      waiting
      (take 1 answers)
      (pump (λ u. true) true 2 waiting (written_all after_one.sent))
    × ((after_one.broken ≡ true)
        ⊎ ((after_one.writer.outstanding ≡ true) ⊎ (take 1 answers ≡ answers)))
unfolding get_session new_user set_session set_session_internal
answers-read_example =
    answers-read (λ s. true) (λ u. true) sender 4 answers waiting after_one-Reach refl
      answers-AllSendable answers-Posts refl

abbrev drained : System
drained = drain 1 after_one

answers-all_example :
    Reach drained
    × (drained.writer.datas ≡ [])
    × (drained.writer.outstanding ≡ false)
    × Delivers
        (λ u. true)
        waiting
        answers
        (pump (λ u. true) true 4 waiting (written_all drained.sent))
unfolding get_session new_user set_session set_session_internal
answers-all_example =
    answers-all (λ s. true) (λ u. true) sender 4 answers waiting after_one-Reach refl refl
      answers-AllSendable answers-Posts refl
