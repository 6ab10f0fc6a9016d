-- ===== src/Service/MsgTrans.antt =====
-- src/service/msg_transform.cpp: a message is put into a packet, alone or behind others, and taken
-- out of one into a block of memory. `malloc` is what the allocator answers to a size: NULL, or
-- a block with whatever stood there.
pub mod RoundTrip
pub mod Stream
use dolphin_core.Base.{ℕ, suc, ◌+◌, ◌-◌, ◌*◌, ◌/◌, ◌%◌, ◌^◌, Bool, true, false}
use dolphin_core.Base.{List, [], ◌∷◌, ◌++◌, Option, none, some, length, take, drop, ltb}
use dolphin_core.Base.{if◌then◌else◌, ℤ, pos, negsuc, pos_part}
use dolphin_core.Mem.LoopBuf.{copy_to}
use dolphin_core.Serialize.Packet.{size_field, get_cmd_size}
use dolphin_core.Serialize.MsgPack.{Cipher, Zlib, Got, packetbuf, getmsg2buf}
use dolphin_core.Serialize.MsgPack.Header.{PacketHdr, getpackethdr}

-- stQueueMsg: `cmdsize`, and the bytes of its block from `cmdBuffer` on.
pub record QueueMsg : Type 0 where
  pub cmdsize : ℕ
  pub cmd_buffer : List ℕ

-- The blocks that are allocated, and the next address.
pub record Heap : Type 0 where
  pub blocks : List (ℕ × QueueMsg)
  pub next : ℕ

abbrev pub Malloc : Type 0
Malloc = ℕ → Option (List ℕ)

-- sizeof(stQueueMsg), and the offset of `cmdBuffer`.
abbrev pub queue_msg_size : ℕ
queue_msg_size = 12

abbrev pub cmd_buffer_offset : ℕ
cmd_buffer_offset = 8

-- tmpMsgBufferSize: `ROUNDNUM2(getcmdsize() + 64, 64)`, an `int` as its bit pattern.
unfoldable pub msg_buffer_size : ℕ → ℕ
msg_buffer_size n = (n + 64 + 63) % 2 ^ 32 / 64 * 64

-- A pattern of 32 bits as an `int`, and as the `size_t` that it turns into.
abbrev pub to_int : ℕ → ℤ
to_int n = if ltb n (2 ^ 31) then pos n else negsuc (2 ^ 32 - 1 - n)

abbrev pub to_size : ℕ → ℕ
to_size n = if ltb n (2 ^ 31) then n else n + 2 ^ 64 - 2 ^ 32

-- NewPacketBuffer: CSafeMsgQueue::NewPushBuffer, as to the size.
unfoldable pub new_push_buffer : Malloc → ℕ → Option (List ℕ)
new_push_buffer malloc size = malloc ((size + 8 + 1 + 7) % 2 ^ 64 / 8 * 8)

-- The block at the next address, and the address when its block is freed again at once.
abbrev pub allocated : QueueMsg → Heap → Heap
allocated q h = record { blocks = h.blocks ++ ((h.next, q) ∷ []); next = suc h.next }

abbrev pub freed : Heap → Heap
freed h = record h { next = suc h.next }

-- The part of `decodeMessage` behind the allocation of a block.
abbrev pub got_message : Heap → Option (List ℕ) → Got → Bool × Option ℕ × Heap
got_message h none got = (false, none, h)
got_message h (some block) got =
    if ltb 0 (pos_part got.code)
    then (
      true,
      some h.next,
      allocated
          (record {
            cmdsize = pos_part got.code;
            cmd_buffer = copy_to 0 got.msg (drop cmd_buffer_offset block);
          })
          h,
    )
    else (false, some h.next, freed h)

abbrev pub decode_behind :
    Zlib → Cipher → Malloc → Option ℕ → Heap → PacketHdr → Bool × Option ℕ × Heap
decode_behind zip enc malloc p h hdr =
    let size = msg_buffer_size (get_cmd_size hdr.buf) in
    if hdr.is_error
    then (false, p, h)
    else if hdr.is_full
    then got_message h (new_push_buffer malloc ((to_size size + queue_msg_size) % 2 ^ 64))
        (getmsg2buf zip enc hdr.buf hdr.de_size (to_int size))
    else (false, p, h)

-- decodeMessage: the result, the pointer, which it leaves alone where it allocates nothing, and the
-- heap. `none` is NULL; a pointer to a freed block stays.
unfoldable pub decode_message :
    Zlib → Cipher → Malloc → List ℕ → Option ℕ → Heap → Bool × Option ℕ × Heap
unfolding getpackethdr get_cmd_size msg_buffer_size new_push_buffer getmsg2buf copy_to
decode_message zip enc malloc bytes p h =
    decode_behind zip enc malloc p h (getpackethdr enc bytes 0)

-- `_package_message_buffer`, which stays from call to call: `_MAX_SEND_PACKET_SIZE_ + 1` bytes.
abbrev pub package_size : ℕ
package_size = 2 ^ 20 - 1 - 8 - 1024 + 1

-- encodeMessage: the data of the message, if any, and the array afterwards.
unfoldable pub encode_message : Zlib → Cipher → List ℕ → ℤ → List ℕ → Option (List ℕ) × List ℕ
unfolding packetbuf
encode_message zip enc pbuf level array =
    let r = packetbuf zip enc (some pbuf) (some array) level false in
    if ltb (length array) (length pbuf)
    then (none, array)
    else if ltb 0 (pos_part r.0)
    then (some (take (pos_part r.0) r.1), r.1)
    else (none, r.1)

-- data_encode_to_cache: the result, the cache and the array afterwards.
unfoldable pub data_encode_to_cache :
    Zlib → Cipher → List ℕ → ℤ → List ℕ → List ℕ → Bool × List ℕ × List ℕ
unfolding packetbuf
data_encode_to_cache zip enc pbuf level cache array =
    let r = packetbuf zip enc (some pbuf) (some array) level false in
    if ltb (length array) (length pbuf)
    then (false, cache, array)
    else if ltb 0 (pos_part r.0)
    then (true, cache ++ take (pos_part r.0) r.1, r.1)
    else (false, cache, r.1)
