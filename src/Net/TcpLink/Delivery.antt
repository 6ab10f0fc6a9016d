-- ===== src/Net/TcpLink/Delivery.antt =====
-- What a link delivers: the packets that were sent, whatever the network did to the stream.
use dolphin_core.Base.{ℕ, ◌≡◌, refl, ◌∙◌, sym, arith, true, false, List, [], ◌∷◌, ◌++◌}
use dolphin_core.Base.{append_assoc, concat, inl, false≢true}
use dolphin_core.Net.TcpLink.{success, fail}
use dolphin_core.Net.TcpLink.Cut.{IsPacket, IsPending, IsBad, Cut, pending, bad, packet, Cut-unique}
use dolphin_core.Net.TcpLink.Gateway.{
  Reader, Read, lat_none, new_reader, read_on, on_read, on_reads,
}
use dolphin_core.Net.TcpLink.{on_data}
use dolphin_core.Net.TcpLink.Reads.{Reads, cut, refused, on_data-Reads}
use dolphin_core.Net.TcpLink.Segments.{
  IsOpen, on_read_open, Session, complete, broken, on_reads-Session,
}

success≢fail : (n : ℕ) → success ≡ fail n → ⊥
success≢fail n e = cc

-- Every element of a list is a packet.
abbrev pub ArePackets : List (List ℕ) → Type 0
ArePackets [] = Unit {0}
ArePackets (p ∷ ms) = IsPacket p × ArePackets ms

Cut-concat :
    (ms : List (List ℕ)) (rest : List ℕ)
    → ArePackets ms
    → IsPending rest
    → Cut (concat ms ++ rest) ms rest true
Cut-concat [] rest k h = pending h
Cut-concat (p ∷ ms) rest (k, ks) h =
    packet p ((p ++ concat ms) ++ rest) k (append_assoc p (concat ms) rest)
      (Cut-concat ms rest ks h)

Cut-concat_bad :
    (ms : List (List ℕ)) (rest : List ℕ)
    → ArePackets ms
    → IsBad rest
    → Cut (concat ms ++ rest) ms rest false
Cut-concat_bad [] rest k h = bad h
Cut-concat_bad (p ∷ ms) rest (k, ks) h =
    packet p ((p ++ concat ms) ++ rest) k (append_assoc p (concat ms) rest)
      (Cut-concat_bad ms rest ks h)

-- A session over a stream with a good cut gives this cut.
Session-Cut :
    {xs : List ℕ} {r : Reader} {out : Read} (ms : List (List ℕ)) (rest : List ℕ)
    → Session xs r out
    → Cut xs ms rest true
    → out ≡ record { code = success; delivered = ms; reader = record r { pre_msg = rest } }
Session-Cut ms rest (complete ms' rest' c e) k =
    let same = Cut-unique c k refl in rw (same.0, same.1) at e
Session-Cut ms rest (broken ms' lost rest' n c e e') k =
    let same = Cut-unique c k refl in absurd (false≢true same.2)

-- A session that went well gave the packets of a good cut.
Session-success :
    {xs : List ℕ} {r : Reader} {out : Read}
    → Session xs r out
    → out.code ≡ success
    → (ms : List (List ℕ)) × (rest : List ℕ) × Cut xs ms rest true
Session-success (complete ms rest c e) ok = (ms, rest, c)
Session-success (broken ms lost rest n c e e') ok = absurd (success≢fail n (sym ok ∙ e))

-- A stream of packets `ms` and the beginning `rest` of another, cut by the network into reads
-- `ds` in any way: a new link hands over exactly `ms`, in order, and keeps `rest`.
pub packets_delivered :
    (ms : List (List ℕ)) (rest : List ℕ) (ds : List (List ℕ))
    → ArePackets ms
    → IsPending rest
    → concat ds ≡ concat ms ++ rest
    → on_reads (new_reader lat_none) ds ≡ record {
      code = success;
      delivered = ms;
      reader = record (new_reader lat_none) { pre_msg = rest };
    }
unfolding new_reader
packets_delivered ms rest ds k h e =
    Session-Cut ms rest (on_reads-Session ds (new_reader lat_none) (inl refl) (inl (omega arith)))
      (rw e (Cut-concat ms rest k h))

-- Two ways to split the same bytes into reads of an open link: if one succeeds, the other gives
-- the same packets and leaves the same link.
pub segmentation_irrelevant :
    (r : Reader) (ds es : List (List ℕ))
    → IsOpen r
    → IsPending r.pre_msg
    → concat ds ≡ concat es
    → (on_reads r ds).code ≡ success
    → on_reads r es ≡ on_reads r ds
segmentation_irrelevant r ds es free p e ok =
    let here = on_reads-Session ds r free p in
    let there = on_reads-Session es r free p in
    let (ms, rest, c) = Session-success here ok in
    Session-Cut ms rest there (rw (← e) c) ∙ sym (Session-Cut ms rest here c)

-- A read whose bytes have a bad cut fails and hands over nothing.
refused_read :
    (r : Reader) (d : List ℕ) (ms : List (List ℕ)) (rest : List ℕ)
    → IsOpen r
    → Reads (r.pre_msg ++ d) [] (on_data r.pre_msg d)
    → Cut (r.pre_msg ++ d) ms rest false
    → (n : ℕ) × ((on_read r d).code ≡ fail n) × ((on_read r d).delivered ≡ [])
unfolding read_on
refused_read r d ms rest free (cut ms' rest' c e) k =
    absurd (false≢true (sym (Cut-unique c k refl).2))
refused_read r d ms rest free (refused ms' rest' pre n c e) k =
    (n, rw (on_read_open r d free, e), rw (on_read_open r d free, e))

-- A bad header costs what came with it: an open link that has nothing pending and reads packets
-- `ms` and a bad header behind them in one read fails and hands over none of the packets.
pub bad_header_drops :
    (r : Reader) (ms : List (List ℕ)) (rest : List ℕ)
    → IsOpen r
    → r.pre_msg ≡ []
    → ArePackets ms
    → IsBad rest
    → (n : ℕ) × ((on_read r (concat ms ++ rest)).code ≡ fail n)
      × ((on_read r (concat ms ++ rest)).delivered ≡ [])
bad_header_drops r ms rest free empty k b =
    refused_read r (concat ms ++ rest) ms rest free
      (rw empty (on_data-Reads [] (concat ms ++ rest) (inl (omega arith))))
      (rw empty (Cut-concat_bad ms rest k b))
