-- ===== src/NetworkProcess/Parts.antt =====
-- A packet that comes in two parts.
use model_lib.Common.{
  ℕ, ◌+◌, ◌-◌, ◌^◌, ◌≤◌, ◌<◌, ◌≡◌, refl, ◌⊎◌, inl, inr, Bool, true, false, Option, none, some, List,
  [], ◌++◌, length, take, arith, Bool-cases, dec_lt,
}
use model_lib.User.{User}
use model_lib.Session.Wire.{Header}
use model_lib.SimpleBuffer.{memcpy}
use model_lib.Allocate.{block_size}
use model_lib.Allocate.Slots.{block_size-enough}
use model_lib.NetworkProcess.{Types, Block, on_receive, admitted, receive_parts}

memcpy_fits :
    (room n : ℕ) (src : List ℕ) → n ≤ room → n ≤ length src → memcpy room src n ≡ some (take n src)
unfolding memcpy
memcpy_fits room n src h h' = ground arith

memcpy_over : (room n : ℕ) (src : List ℕ) → room < n → memcpy room src n ≡ none
unfolding memcpy
memcpy_over room n src h = ground arith

-- What the bytes of two parts are as one block.
abbrev pub joined : ℕ → Header → Block → Block → Block
joined address h buff1 buff2 = record {
  size = h.len;
  address = address;
  bytes = take buff1.size buff1.bytes ++ take buff2.size buff2.bytes;
}

module _ (types : Types) (alive : ℕ → Bool) (can_receive : User → Bool) where
  -- Of an admitted packet of up to 2 ^ 31 bytes whose two parts are all there: the block has room for at least the length
  -- in the header. If the parts have no more bytes than the room, they are processed as the one block that
  -- holds the bytes of both, of the length in the header, and which is not the session's; if they have
  -- more, a copy leaves the block. A packet that is not admitted is never copied.
  pub receive_parts-joins :
      (address conn : ℕ) (user : Option User) (h : Header) (buff1 buff2 : Block)
      → h.len ≤ 2 ^ 31
      → buff1.size ≤ length buff1.bytes
      → buff2.size ≤ length buff2.bytes
      → let run = receive_parts types alive can_receive address conn user h buff1 buff2 in
        ((admitted types alive can_receive conn user h ≡ false) × (run ≡ some (user, [], false)))
        ⊎ ((admitted types alive can_receive conn user h ≡ true)
            × ((room : ℕ) × (block_size h.len ≡ some room)
                × (h.len ≤ room)
                × (((buff1.size + buff2.size ≤ room)
                      × (run ≡ on_receive types conn user h (joined address h buff1 buff2) false))
                    ⊎ ((room < buff1.size + buff2.size) × (run ≡ none)))))
  unfolding receive_parts
  receive_parts-joins address conn user h buff1 buff2 small there1 there2 =
      let (room, block, enough) = block_size-enough h.len small in
      elim (Bool-cases (admitted types alive can_receive conn user h)) [
        | inr refused ↦ inl (refused, rw refused refl)
        | inl admits ↦ inr (
          admits,
          (
            room,
            block,
            enough,
            rw (admits, block)
                (elim (dec_lt room (buff1.size + buff2.size)) [
                  | no fits ↦ inl (
                    omega arith,
                    rw
                        (
                          memcpy_fits room buff1.size buff1.bytes (omega arith) there1,
                          memcpy_fits (room - buff1.size) buff2.size buff2.bytes (omega arith)
                              there2,
                        )
                        refl,
                  )
                  | yes over ↦ inr (
                    over,
                    elim (dec_lt room buff1.size) [
                      | yes first ↦ rw (memcpy_over room buff1.size buff1.bytes first) refl
                      | no fits ↦
                          rw
                            (
                              memcpy_fits room buff1.size buff1.bytes (omega arith) there1,
                              memcpy_over (room - buff1.size) buff2.size buff2.bytes (omega arith),
                            )
                            refl
                    ],
                  )
                ]),
          ),
        )
      ]
