-- ===== src/ChatUser/Sending.antt =====
-- What `SendPacket` puts on the wire.
use model_lib.Common.{
  ℕ, ◌^◌, ◌<◌, ◌≡◌, refl, ap, ◌∙◌, Bool, true, some, List, ◌++◌, length, take, take_all,
  take-append, length-append, arith,
}
use model_lib.User.{get_session}
use model_lib.SimpleBuffer.{Buffer, is_valid, new_joined}
use model_lib.SimpleBuffer.Joined.{new_joined-appends}
use model_lib.Session.Wire.{
  Header, InRange, encode_header, decode_header, header_size, length-encode_header,
  decode-encode_header,
}
use model_lib.Session.Queue.{send_buffer, write_two}
use model_lib.ChatUser.{ChatUser, packet_header, send_to, send_packet}

valid_posted : (b : Buffer) → is_valid b ≡ true → send_buffer b ≡ some b
unfolding send_buffer
valid_posted b h = rw h refl

posted :
    (s : ℕ) (h : Header) (packet memory : List ℕ) (b : Buffer)
    → new_joined (some (encode_header h)) header_size (some packet) h.len memory ≡ some b
    → is_valid b ≡ true
    → send_to (some s) h (some packet) memory ≡ some (some (s, b))
unfolding send_to write_two
posted s h packet memory b made valid = rw made (rw (valid_posted b valid) refl)

-- Over a live session the buffer of a packet whose header tells its length is the header's bytes and then the packet's.
pub send_packet-posts :
    (alive : ℕ → Bool) (u : ChatUser) (s : ℕ) (h : Header) (packet memory : List ℕ)
    → get_session alive u.base ≡ some s
    → length packet ≡ h.len
    → h.len < 2 ^ 32
    → (b : Buffer) × (send_packet alive h (some packet) memory u ≡ some (some (s, b)))
      × (b.data_ ≡ some (encode_header h ++ packet))
      × (b.len ≡ length (encode_header h ++ packet))
unfolding send_packet
send_packet-posts alive u s h packet memory live sized fits =
    let size : length (encode_header h) ≡ header_size = length-encode_header h in
    let (b, made, holds, len, valid) =
      new_joined-appends (encode_header h) packet memory header_size h.len (omega (arith, size))
        (omega (arith, sized)) (omega arith) (omega (arith, fits)) in
    (
      b,
      rw live (posted s h packet memory b made valid),
      holds
          ∙ ap some (
              ap (λ (front : List ℕ). front ++ take h.len packet)
                (take_all (encode_header h) header_size size)
              ∙ ap (◌++◌ (encode_header h)) (take_all packet h.len sized)),
      len ∙ omega (arith, size, sized, length-append (encode_header h) packet),
    )

-- Over a live session `SendPacket` posts one buffer to it: the header's 14 bytes and then the packet's. A receiver
-- that decodes the first 14 bytes reads the type and the length of the packet that follows.
send_packet-frames :
    (alive : ℕ → Bool) (u : ChatUser) (s crc seq type : ℕ) (packet memory : List ℕ)
    → get_session alive u.base ≡ some s
    → InRange (packet_header crc seq type (length packet))
    → let h = packet_header crc seq type (length packet) in
      (b : Buffer) × (send_packet alive h (some packet) memory u ≡ some (some (s, b)))
      × (b.data_ ≡ some (encode_header h ++ packet))
      × ((decode_header (take header_size (encode_header h ++ packet))).type ≡ type)
      × ((decode_header (take header_size (encode_header h ++ packet))).len ≡ length packet)
unfolding packet_header
send_packet-frames alive u s crc seq type packet memory live r =
    let h = packet_header crc seq type (length packet) in
    let (b, made, holds, len) = send_packet-posts alive u s h packet memory live refl r.len_fits in
    let decoded : decode_header (take header_size (encode_header h ++ packet)) ≡ h =
      ap decode_header (take-append (encode_header h) packet header_size (length-encode_header h))
      ∙ decode-encode_header h r in
    (b, made, holds, ap (λ (d : Header). d.type) decoded, ap (λ (d : Header). d.len) decoded)
