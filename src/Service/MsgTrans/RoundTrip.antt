-- ===== src/Service/MsgTrans/RoundTrip.antt =====
-- A message through encodeMessage and decodeMessage.
use dolphin_core.Base.{
  ℕ, ◌+◌, ◌%◌, ◌^◌, ◌≤◌, ◌<◌, ◌≡◌, refl, ap, ap₂, ◌∙◌, sym, arith, true, false, ◌&&◌, ◌⊎◌, inl, inr,
}
use dolphin_core.Base.{List, [], none, some, Option, length, take, drop, ltb, ℤ, pos, pos_part}
use dolphin_core.Base.{if_true, if_false, append-nil, take-append_eq, length-take, if◌then◌else◌}
use dolphin_core.Mem.LoopBuf.{copy_to}
use dolphin_core.Serialize.Packet.{size_field, get_cmd_size, min_zlib_pack_size}
use dolphin_core.Serialize.MsgPack.{
  Zlib, packetbuf, getmsg2buf, take_packet, moved_on, zlib_level, is_zlib_level,
}
use dolphin_core.Serialize.MsgPack.Body.{IsZlib}
use dolphin_core.Serialize.MsgPack.Header.{getpackethdr-whole, getmsg2buf-started, too_large}
use dolphin_core.Serialize.MsgPack.Whole.{
  Carries, IsPacked, none-IsCipher, packetbuf-raw_IsPacked, packetbuf-zipped_IsPacked,
}
use dolphin_core.Service.MsgTrans.{
  QueueMsg, Heap, Malloc, queue_msg_size, cmd_buffer_offset, msg_buffer_size, to_int, to_size,
  new_push_buffer, allocated, decode_message, encode_message, got_message, decode_behind,
}

-- A message that `encodeMessage` can send with zlib level `level`: it fits the array, and zlib
-- succeeds if it is called and does not blow it up.
abbrev pub IsSendable : Zlib → ℤ → ℕ → List ℕ → Type 0
IsSendable zip level room pin =
    (2 ≤ length pin)
    × (length pin + 13 ≤ room)
    × (((is_zlib_level level && ltb min_zlib_pack_size (length pin)) ≡ false)
        ⊎ ((z : List ℕ) × ((is_zlib_level level && ltb min_zlib_pack_size (length pin)) ≡ true)
            × (zip.compress (zlib_level level) pin room ≡ (true, z))
            × (2 ≤ length z)
            × (length z ≤ length pin + 64)
            × (length z + 17 ≤ room)))

pub packetbuf-IsPacked :
    (zip : Zlib) (level : ℤ) (pin array : List ℕ)
    → IsZlib zip
    → length array < too_large
    → IsSendable zip level (length array) pin
    → IsPacked zip pin array (packetbuf zip none (some pin) (some array) level false)
packetbuf-IsPacked zip level pin array law small (two, room, inl raw) =
    packetbuf-raw_IsPacked zip pin array level false raw two room small
packetbuf-IsPacked zip level pin array law small (two, room, inr (z, zl, zips, least, near, fits)) =
    packetbuf-zipped_IsPacked zip pin array z level false law zl zips least near (omega arith) fits
      small

-- What a block holds after decoding the message `pin` into it.
abbrev pub holding : List ℕ → List ℕ → QueueMsg
holding pin block = record {
  cmdsize = length pin;
  cmd_buffer = copy_to 0 pin (drop cmd_buffer_offset block);
}

pub take-holding : (pin block : List ℕ) → take (length pin) (holding pin block).cmd_buffer ≡ pin
unfolding copy_to
take-holding pin block = take-append_eq (length pin) pin _ refl

-- A packet that carries `pin` is decoded into a new block.
pub decode_message-Carries :
    (zip : Zlib) (malloc : Malloc) (p pin : List ℕ) (q : Option ℕ) (h : Heap) (block : List ℕ)
    → Carries zip p pin
    → 2 ≤ length pin
    → length pin < 2 ^ 30
    → new_push_buffer malloc (msg_buffer_size (length pin) + queue_msg_size) ≡ some block
    → decode_message zip none malloc p q h ≡ (true, some h.next, allocated (holding pin block) h)
unfolding decode_message
decode_message-Carries zip malloc p pin q h block c two small room =
    ap (decode_behind zip none malloc q h) (getpackethdr-whole p c.padded c.least c.most)
    ∙ ap₂ (got_message h) given got
    ∙ if_true {b = ltb 0 (length pin)} _ _ (ground (arith, two))
  where
    size : ℕ
    size = msg_buffer_size (length pin)

    bounds : (length pin + 64 ≤ size) × (size < 2 ^ 31)
    bounds = (unfold msg_buffer_size in omega arith, unfold msg_buffer_size in omega arith)

    given :
        new_push_buffer malloc
          ((to_size (msg_buffer_size (get_cmd_size p)) + queue_msg_size) % 2 ^ 64)
        ≡ some block
    given =
        ap (λ n. new_push_buffer malloc ((to_size (msg_buffer_size n) + queue_msg_size) % 2 ^ 64))
          c.cmd_size
        ∙ ap (new_push_buffer malloc) as_size
        ∙ room
      where
        as_size : (to_size size + queue_msg_size) % 2 ^ 64 ≡ size + queue_msg_size
        as_size = ground (arith, bounds)

    as_int : to_int (msg_buffer_size (get_cmd_size p)) ≡ pos size
    as_int =
        ap (λ n. to_int (msg_buffer_size n)) c.cmd_size
        ∙ if_true {b = ltb size (2 ^ 31)} _ _ (ground (arith, bounds))

    got :
        getmsg2buf zip none p 8 (to_int (msg_buffer_size (get_cmd_size p)))
        ≡ moved_on p (length p) (pos (length pin)) pin
    got =
        ap (getmsg2buf zip none p 8) as_int
        ∙ ap (λ b. getmsg2buf zip none b 8 (pos size)) (sym (append-nil p))
        ∙ getmsg2buf-started zip p [] size none-IsCipher c.padded
            (omega (arith, ap size_field (append-nil p), c.near, bounds)) (omega (arith, bounds))
        ∙ ap (λ b. take_packet zip b (length p) size) (append-nil p)
        ∙ c.taken (length p) size (omega (arith, bounds))

-- What `encodeMessage` makes of a message that can be sent: a packet that carries it.
pub encode_message-Carries :
    (zip : Zlib) (level : ℤ) (pin array : List ℕ)
    → IsZlib zip
    → length array < too_large
    → IsSendable zip level (length array) pin
    → (p : List ℕ) × (array' : List ℕ) × (encode_message zip none pin level array
        ≡ (some p, array'))
      × Carries zip p pin
      × (length p ≤ length array)
      × (length array' ≡ length array)
unfolding encode_message
encode_message-Carries zip level pin array law small s =
    let r = packetbuf zip none (some pin) (some array) level false in
    let k = packetbuf-IsPacked zip level pin array law small s in
    (
      k.packet,
      r.1,
      if_false {b = ltb (length array) (length pin)} _ _ (ground (arith, s.1))
          ∙ ap
              (λ c. if ltb 0 (pos_part c) then (some (take (pos_part c) r.1), r.1) else (none, r.1))
              k.code
          ∙ if_true {b = ltb 0 (length k.packet)} _ _ (ground (arith, k.carries.padded.header))
          ∙ ap (λ u. (some u, r.1)) k.front,
      k.carries,
      omega (arith, k.room, ap length k.front, length-take (length k.packet) r.1),
      k.room,
    )
