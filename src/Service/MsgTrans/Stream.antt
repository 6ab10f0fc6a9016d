-- ===== src/Service/MsgTrans/Stream.antt =====
-- Messages from one program to another: encoded one after the other, sent as a stream of bytes,
-- cut into packets by a link and decoded one after the other.
use dolphin_core.Base.{ℕ, suc, ◌+◌, ◌^◌, ◌≤◌, ◌<◌, ◌≡◌, refl, ap, ◌∙◌, sym, arith, false, inl, inr}
use dolphin_core.Base.{List, [], ◌∷◌, none, some, Option, length, take, ℤ, concat}
use dolphin_core.Base.{append-nil, if◌then◌else◌, Bool-cases}
use dolphin_core.Base.Assoc.{lookup, elem, keys, AllEntries, AllEntries-append, lookup-append_new}
use dolphin_core.Net.Shared.{◌>>=◌}
use dolphin_core.Net.TcpLink.{success, read_int32, packet_size_check, get_one_packet_size}
use dolphin_core.Net.TcpLink.Cut.{IsPacket}
use dolphin_core.Net.TcpLink.Gateway.{lat_none, new_reader, on_reads}
use dolphin_core.Net.TcpLink.Delivery.{ArePackets, packets_delivered}
use dolphin_core.Serialize.Packet.{size_field, is_compress, get_packet_size, round_packet}
use dolphin_core.Serialize.MsgPack.{Zlib}
use dolphin_core.Serialize.MsgPack.Decode.{padded_blocks}
use dolphin_core.Serialize.MsgPack.Body.{IsZlib}
use dolphin_core.Serialize.MsgPack.Header.{too_large}
use dolphin_core.Serialize.MsgPack.Whole.{Carries}
use dolphin_core.Service.MsgTrans.{
  QueueMsg, Heap, Malloc, queue_msg_size, msg_buffer_size, new_push_buffer, allocated,
  decode_message, encode_message, package_size,
}
use dolphin_core.Service.MsgTrans.RoundTrip.{
  IsSendable, encode_message-Carries, decode_message-Carries, holding, take-holding,
}

abbrev pub with_packet : Option (List ℕ) → List (List ℕ) → List (List ℕ)
with_packet none ps = ps
with_packet (some p) ps = p ∷ ps

-- The packets of messages; one that cannot be encoded has none.
abbrev pub encode_all : Zlib → ℤ → List (List ℕ) → List ℕ → List (List ℕ)
encode_all zip level [] array = []
encode_all zip level (m ∷ ms) array =
    let (o, array') = encode_message zip none m level array in
    with_packet o (encode_all zip level ms array')

-- The messages of packets, read from the blocks that they are decoded into; `none` if one fails.
abbrev pub decode_all : Zlib → Malloc → List (List ℕ) → Option ℕ → Heap → Option (List (List ℕ))
decode_all zip malloc [] q h = some []
decode_all zip malloc (p ∷ ps) q h =
    let (ok, q', h') = decode_message zip none malloc p q h in
    let rest = decode_all zip malloc ps q' h' in
    if ok
    then (q' >>= λ a.
        lookup a h'.blocks >>= λ m. rest >>= λ ms. some (take m.cmdsize m.cmd_buffer ∷ ms))
    else none

abbrev pub AreSendable : Zlib → ℤ → ℕ → List (List ℕ) → Type 0
AreSendable zip level room [] = Unit {0}
AreSendable zip level room (m ∷ ms) = IsSendable zip level room m × AreSendable zip level room ms

-- The addresses in use are those that were given out.
abbrev pub IsFreshHeap : Heap → Type 0
IsFreshHeap h = AllEntries (λ k m. k < h.next) h.blocks

-- There is memory for the message of a packet, whatever its size, up to what can be sent.
abbrev pub HasMemory : Malloc → ℕ → Type 0
HasMemory malloc room =
    (n : ℕ)
    → n < room
    → (b : List ℕ) × (new_push_buffer malloc (msg_buffer_size n + queue_msg_size) ≡ some b)

AllEntries-weaken :
    (m : List (ℕ × QueueMsg)) (n : ℕ)
    → AllEntries (λ k q. k < n) m
    → AllEntries (λ k q. k < suc n) m
AllEntries-weaken [] n a = tt
AllEntries-weaken (e ∷ m) n (p, a) = (omega arith, AllEntries-weaken m n a)

below-not-elem :
    (m : List (ℕ × QueueMsg)) (n j : ℕ)
    → AllEntries (λ k q. k < n) m
    → n ≤ j
    → elem j (keys m) ≡ false
below-not-elem [] n j a h = refl
below-not-elem ((k, q) ∷ m) n j (p, a) h = ground (arith, below-not-elem m n j a h)

pub allocated-IsFreshHeap : (q : QueueMsg) (h : Heap) → IsFreshHeap h → IsFreshHeap (allocated q h)
allocated-IsFreshHeap q h f =
    AllEntries-append (λ k m. k < suc h.next) h.blocks ((h.next, q) ∷ [])
      (AllEntries-weaken h.blocks h.next f) (omega arith, tt)

pub lookup-allocated :
    (q : QueueMsg) (h : Heap) → IsFreshHeap h → lookup h.next (allocated q h).blocks ≡ some q
lookup-allocated q h f =
    lookup-append_new h.next q h.blocks (below-not-elem h.blocks h.next h.next f (omega arith))

-- Both ends agree on the size of a packet.
sizes_agree :
    (p : List ℕ)
    → size_field p < too_large
    → round_packet (get_packet_size p) ≡ get_one_packet_size p
unfolding round_packet get_packet_size get_one_packet_size is_compress size_field read_int32
sizes_agree p h = elim (Bool-cases (is_compress p)) [
  | inl e ↦ rw e (omega arith)
  | inr e ↦ rw e (omega arith)
]

Carries-IsPacket :
    (zip : Zlib) (p pin : List ℕ) → Carries zip p pin → length p < too_large → IsPacket p
unfolding packet_size_check
Carries-IsPacket zip p pin c small = record {
  header = c.padded.header;
  checked = rw (sym whole) (ground (arith, small, least));
  whole = whole;
}
  where
    least : 8 ≤ length p
    least = (padded_blocks p c.padded).1

    whole : length p ≡ get_one_packet_size p
    whole = c.padded.whole ∙ sizes_agree p c.most

encode_all-Carries :
    (zip : Zlib) (level : ℤ) (malloc : Malloc) (ms : List (List ℕ)) (array : List ℕ) (q : Option ℕ)
    (h : Heap)
    → IsZlib zip
    → length array < 2 ^ 23
    → AreSendable zip level (length array) ms
    → HasMemory malloc (length array)
    → IsFreshHeap h
    → ArePackets (encode_all zip level ms array)
      × (decode_all zip malloc (encode_all zip level ms array) q h ≡ some ms)
encode_all-Carries zip level malloc [] array q h law small s mem f = (tt, refl)
encode_all-Carries zip level malloc (m ∷ ms) array q h law small (s, ss) mem f =
    let (p, array', e, c, shorter, same) =
      encode_message-Carries zip level m array law (omega arith) s in
    let (b, eb) = mem (length m) (omega (arith, s.1)) in
    let d = decode_message-Carries zip malloc p m q h b c s.0 (omega (arith, s.1)) eb in
    let rest =
      encode_all-Carries zip level malloc ms array' (some h.next) (allocated (holding m b) h) law
        (omega (arith, same)) (rw same ss) (rw same mem)
        (allocated-IsFreshHeap (holding m b) h f) in
    let encoded : encode_all zip level (m ∷ ms) array ≡ p ∷ encode_all zip level ms array' =
      ap (λ r. with_packet r.0 (encode_all zip level ms r.1)) e in
    rw encoded (
      (Carries-IsPacket zip p m c (omega (arith, shorter)), rest.0),
      rw (d, lookup-allocated (holding m b) h f, rest.1)
          (ap (λ u. some (u ∷ ms)) (take-holding m b)),
    )

-- Messages that can be sent, encoded one after the other and sent as one stream, cut by the
-- network into reads `ds` in any way: a new link at the other end reads them without an error, and
-- the packets that it hands over are decoded to exactly these messages, in order, if there is
-- memory for them.
pub messages_delivered :
    (zip : Zlib) (level : ℤ) (malloc : Malloc) (ms : List (List ℕ)) (array : List ℕ)
    (ds : List (List ℕ)) (q : Option ℕ) (h : Heap)
    → IsZlib zip
    → length array ≡ package_size
    → AreSendable zip level package_size ms
    → HasMemory malloc package_size
    → IsFreshHeap h
    → concat ds ≡ concat (encode_all zip level ms array)
    → let out = on_reads (new_reader lat_none) ds in
      (out.code ≡ success) × (decode_all zip malloc out.delivered q h ≡ some ms)
unfolding new_reader
messages_delivered zip level malloc ms array ds q h law size s mem f e =
    let k =
      encode_all-Carries zip level malloc ms array q h law (omega (arith, size)) (rw size s)
        (rw size mem) f in
    let read =
      packets_delivered (encode_all zip level ms array) [] ds k.0 (inl (omega arith))
        (e ∙ sym (append-nil (concat (encode_all zip level ms array)))) in
    rw read (refl, k.1)
